-- ===== src/Examples/Intersections.antt =====
-- A relation whose rule is the intersection of its two tuples.
use access_controller.Prelude.{◌≡◌, refl, inl, inr, some, List, [], ◌∷◌, In}
use access_controller.Map.{get, put}
use access_controller.Text.{Text, bytes, text_eq, text_ne, contains}
use access_controller.Time.{time_eq}
use access_controller.Config.{intersection, this, cons, nil, rewrite_from_config, NamespaceConfig}
use access_controller.Result.{returns}
use access_controller.Tuple.{
  SubjectSet, subject_id, InternalRelationTuple, subject_from_string, subject_string,
}
use access_controller.Snapshots.{list_snapshots}
use access_controller.Choose.{
  choose, choose_among, smallest, common_timestamps, match_all, add_all, latest, select,
}
use access_controller.Check.Semantics.{Granted}
use access_controller.Store.{Row, sql_reader, list_relation_tuples, read_tuples}
use access_controller.Store.Rows.{IsEncoded}
use access_controller.Store.Agreement.{sql_reader-Agree}
use access_controller.Tree.{SubjectTree}
use access_controller.Expand.{Source, expand}
use access_controller.Expand.Meaning.{Contains, chosen_rules, query_of, Agree}
use access_controller.Expand.Intersections.{HasTwo, expand_two-loses}
use access_controller.Examples.Data.{at, doc}
use access_controller.Examples.Databases.{
  database, database-Answers, where_rows, matches, equals, among, some_text, fits,
}
use access_controller.Examples.Rows.{no_text}

abbrev listed_config : NamespaceConfig
listed_config = record {
  name = doc;
  relations = record { name = bytes "viewer"; rewrite = some (intersection (cons this nil)) } ∷ [];
}

two_rows : Text → List Row
two_rows table =
    record { object = bytes "readme"; relation = bytes "viewer"; subject = bytes "amy" }
    ∷ record { object = bytes "readme"; relation = bytes "viewer"; subject = bytes "bob" }
    ∷ []

two_rows-IsEncoded : (namespace : Text) (r : Row) → In r (two_rows namespace) → IsEncoded r
unfolding two_rows subject_string contains
two_rows-IsEncoded namespace r (inl e) = record {
  subject = subject_id (bytes "amy");
  printed = rw e refl;
  plain = refl;
  proper = tt;
}
two_rows-IsEncoded namespace r (inr (inl e)) = record {
  subject = subject_id (bytes "bob");
  printed = rw e refl;
  plain = refl;
  proper = tt;
}
two_rows-IsEncoded namespace r (inr (inr k)) = absurd k

abbrev two_source : Source
two_source = record {
  configs = (bytes "a", (doc, (at 5, listed_config) ∷ []) ∷ []) ∷ [];
  list = list_relation_tuples (database two_rows) no_text;
}

abbrev readme_viewer : SubjectSet
readme_viewer = record { namespace = doc; object = bytes "readme"; relation = bytes "viewer" }

abbrev viewed_by : Text → InternalRelationTuple
viewed_by user = record {
  namespace = doc;
  object = bytes "readme";
  relation = bytes "viewer";
  subject = subject_id user;
}

readme-HasTwo : HasTwo two_source readme_viewer (bytes "amy") (bytes "bob")
unfolding choose list_snapshots choose_among smallest common_timestamps match_all add_all latest
    select get put time_eq text_eq rewrite_from_config list_relation_tuples read_tuples where_rows
    matches equals among some_text fits two_rows subject_from_string contains
readme-HasTwo = record {
  rule = refl;
  t = viewed_by (bytes "amy");
  u = viewed_by (bytes "bob");
  listed = refl;
  names_a = refl;
  names_b = refl;
  apart = text_ne (bytes "amy") (bytes "bob") refl;
}

two-Agree :
    Agree
      (sql_reader (database two_rows))
      (list_relation_tuples (database two_rows) no_text)
      (bytes "amy")
unfolding contains
two-Agree =
    sql_reader-Agree (database two_rows) two_rows no_text (bytes "amy") (database-Answers two_rows)
      two_rows-IsEncoded refl

expand_two-loses_example :
    Granted
      (sql_reader (database two_rows))
      (chosen_rules two_source.configs)
      (query_of readme_viewer (bytes "amy"))
    × ((t : SubjectTree) × (expand two_source 1 readme_viewer 12 ≡ some (returns (some t)))
        × ((user : Text) → ¬ Contains t user))
expand_two-loses_example =
    expand_two-loses two_source (sql_reader (database two_rows)) readme_viewer (bytes "amy")
      (bytes "bob") 0 12 (λ e. cc) readme-HasTwo two-Agree
