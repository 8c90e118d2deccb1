-- ===== src/Examples/Rows.antt =====
-- Reading a table of two tuples, and one with a malformed subject.
use access_controller.Prelude.{map, false, ◌≡◌, refl, inl, inr, none, some, List, [], ◌∷◌, In}
use access_controller.Text.{Text, bytes, text_eq, text_ne}
use access_controller.Tuple.{SubjectSet, subject_id, subject_set, subject_string, set_string}
use access_controller.Store.{Row}
use access_controller.Store.Transaction.{row_of}
use access_controller.Text.{contains, split}
use access_controller.Tuple.{SubjectMessage, InternalRelationTuple, set_from_string, tuple_to_proto}
use access_controller.Expand.Meaning.{Agree}
use access_controller.Store.{sql_reader, list_relation_tuples, subject_sets, read_sets}
use access_controller.Store.Rows.{IsProper, IsEncoded, Like}
use access_controller.Handler.ListRpc.{TupleQuery, ListRequest, ListResponse}
use access_controller.Store.Malformed.{subject_sets-fails}
use access_controller.Store.Agreement.{sql_reader-Agree}
use access_controller.Examples.Databases.{
  database, database-Answers, where_rows, matches, equals, among, some_text, fits, like, like_sound,
}
use access_controller.Examples.Stores.{readme_viewers}

-- The table of "doc": the team views readme, and amy is in the team.
abbrev pub team_row : Row
team_row = row_of readme_viewers

abbrev pub amy_row : Row
amy_row = record { object = bytes "team"; relation = bytes "member"; subject = bytes "amy" }

unfoldable pub rows : Text → List Row
rows table = team_row ∷ amy_row ∷ []

team_set : SubjectSet
team_set = record { namespace = bytes "doc"; object = bytes "team"; relation = bytes "member" }

team-IsProper : IsProper (subject_set team_set)
unfolding team_set text_eq
team-IsProper = (λ e. cc, λ e. cc, λ e. cc, text_ne (bytes "member") (bytes "...") refl)

pub rows-IsEncoded : (namespace : Text) (r : Row) → In r (rows namespace) → IsEncoded r
unfolding rows subject_string set_string contains team_set
rows-IsEncoded namespace r (inl e) = record {
  subject = subject_set team_set;
  printed = rw e refl;
  plain = record {
    namespace_hash = refl;
    namespace_colon = refl;
    object_hash = refl;
    object_colon = refl;
    relation_hash = refl;
  };
  proper = team-IsProper;
}
rows-IsEncoded namespace r (inr (inl e)) = record {
  subject = subject_id (bytes "amy");
  printed = rw e refl;
  plain = refl;
  proper = tt;
}
rows-IsEncoded namespace r (inr (inr k)) = absurd k

-- what the text form of a subject message is does not matter here
abbrev pub no_text : SubjectMessage → Text
no_text s = []

sql_reader-Agree_example :
    Agree (sql_reader (database rows)) (list_relation_tuples (database rows) no_text) (bytes "amy")
unfolding contains
sql_reader-Agree_example =
    sql_reader-Agree (database rows) rows no_text (bytes "amy") (database-Answers rows)
      rows-IsEncoded refl

readme_sets :
    subject_sets
      (database rows)
      (record { namespace = bytes "doc"; id = bytes "readme" })
      (bytes "viewer" ∷ [])
    ≡ some
        (record { namespace = bytes "doc"; object = bytes "team"; relation = bytes "member" } ∷ [])
unfolding subject_sets read_sets set_from_string split where_rows matches equals among some_text
    fits like rows text_eq subject_string set_string
readme_sets = refl

-- The id "a:b#c#d" is selected as a subject set.
abbrev malformed_row : Row
malformed_row = record {
  object = bytes "readme";
  relation = bytes "viewer";
  subject = bytes "a:b#c#d";
}

with_malformed : Text → List Row
unfolding rows
with_malformed table = malformed_row ∷ rows table

malformed-Like : Like (bytes "_%%:_%%#_%%") (bytes "a:b#c#d")
unfolding like
malformed-Like = like_sound (bytes "_%%:_%%#_%%") (bytes "a:b#c#d") refl

subject_sets-fails_example :
    subject_sets
      (database with_malformed)
      (record { namespace = bytes "doc"; id = bytes "readme" })
      (bytes "viewer" ∷ [])
    ≡ none
unfolding set_from_string split with_malformed
subject_sets-fails_example =
    subject_sets-fails (database with_malformed) with_malformed
      (record { namespace = bytes "doc"; id = bytes "readme" }) (bytes "viewer" ∷ []) malformed_row
      (database-Answers with_malformed) (inl refl) refl (inl refl) malformed-Like refl

-- A page of one tuple is asked for, and both tuples of the table are sent.
abbrev all_of_doc : TupleQuery
all_of_doc = record { namespace = bytes "doc"; object = []; relations = []; subject = none }

abbrev one_page : ListRequest
one_page = record { query = some all_of_doc; snaptoken = []; page_size = 1; page_token = [] }

abbrev amy_member : InternalRelationTuple
amy_member = record readme_viewers {
  object = bytes "team";
  relation = bytes "member";
  subject = subject_id (bytes "amy");
}

abbrev both_tuples : ListResponse
both_tuples = record {
  relation_tuples = map tuple_to_proto (readme_viewers ∷ amy_member ∷ []);
  next_page_token = [];
  is_last_page = false;
}
