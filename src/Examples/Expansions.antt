-- ===== src/Examples/Expansions.antt =====
-- The expansion of readme#viewer on the database of Stores.
use access_controller.Prelude.{
  ℕ, ◌≡◌, refl, sym, subst, ◌≢◌, ◌↔◌, inl, inr, Option, none, some, [], ◌∷◌, arith, Bool-cases,
  if◌then◌else◌,
}
use access_controller.Map.{get, put}
use access_controller.Text.{Text, bytes, text_eq, contains, split}
use access_controller.Time.{time_eq}
use access_controller.Config.{Rewrite, self_rewrite, rewrite_from_config}
use access_controller.Result.{Result, returns}
use access_controller.Tuple.{
  SubjectSet, set_from_string, subject_from_string, subject_string, set_string, ref_id, ref_set,
  subject_to_proto, subject_set, InternalRelationTuple,
}
use access_controller.Snapshots.{list_snapshots}
use access_controller.Choose.{
  choose, choose_among, smallest, common_timestamps, match_all, add_all, latest, select,
}
use access_controller.Check.Semantics.{Granted}
use access_controller.Store.{sql_reader, list_relation_tuples, read_tuples}
use access_controller.Store.Agreement.{sql_reader-Agree}
use access_controller.Tree.{
  SubjectTree, TreeMessage, message, one_message, no_messages, proto_union, proto_leaf, join_trees,
  tree_to_proto, trees_to_proto, type_to_proto,
}
use access_controller.Expand.{
  Source, expand, expand_rewrite, expand_children, expand_child, expand_listed, expand_tuples,
  expand_subject,
}
use access_controller.Expand.Meaning.{IsUnionRule, chosen_rules, query_of, Agree}
use access_controller.Expand.Members.{AreUnionRules}
use access_controller.Expand.Ends.{IsRanked, RuleFalls, expand_returns}
use access_controller.Expand.Depth.{IsOwnMember, expand_own-diverges}
use access_controller.Handler.ExpandRpc.{Sends, expand_rpc, expand_rpc-Sends}
use access_controller.Examples.Data.{doc, sample_store}
use access_controller.Examples.Checks.{sample_rules}
use access_controller.Examples.Databases.{
  database, database-Answers, where_rows, matches, equals, among, some_text, fits,
}
use access_controller.Examples.Rows.{rows, rows-IsEncoded, no_text}

abbrev source : Source
source = record { configs = sample_store; list = list_relation_tuples (database rows) no_text }

chosen_rule :
    (namespace relation : Text) (r : Rewrite)
    → chosen_rules sample_store namespace relation ≡ some r
    → r ≡ self_rewrite
unfolding choose list_snapshots choose_among smallest common_timestamps match_all add_all latest
    select get put time_eq text_eq
chosen_rule namespace relation r h = elim (Bool-cases (text_eq doc namespace)) [
  | inl b ↦ sample_rules relation r (rw b at h)
  | inr b ↦ let h' = rw b at h in cc
]

source-AreUnionRules : AreUnionRules source
source-AreUnionRules namespace relation r h =
    subst IsUnionRule (sym (chosen_rule namespace relation r h)) (tt, tt)

abbrev readme_viewer : SubjectSet
readme_viewer = record { namespace = doc; object = bytes "readme"; relation = bytes "viewer" }

-- readme is viewed by the union of the team, which has the leaf amy.
abbrev readme_message : TreeMessage
readme_message = message proto_union (ref_set readme_viewer) (
    one_message
      (message proto_union
        (ref_set (record { namespace = doc; object = bytes "team"; relation = bytes "member" }))
        (one_message (message proto_leaf (ref_id (bytes "amy")) no_messages) no_messages))
      no_messages)

readme_expanded : expand_rpc source 3 (some readme_viewer) ≡ some (returns (some readme_message))
unfolding expand_rpc expand expand_rewrite expand_children expand_child expand_listed expand_tuples
    expand_subject choose list_snapshots choose_among smallest common_timestamps match_all add_all
    latest select get put time_eq text_eq rewrite_from_config list_relation_tuples read_tuples
    where_rows matches equals among some_text fits rows subject_string set_string contains split
    set_from_string subject_from_string join_trees tree_to_proto trees_to_proto type_to_proto
    subject_to_proto
readme_expanded = refl

readme-Agree :
    Agree (sql_reader (database rows)) (list_relation_tuples (database rows) no_text) (bytes "amy")
unfolding contains
readme-Agree =
    sql_reader-Agree (database rows) rows no_text (bytes "amy") (database-Answers rows)
      rows-IsEncoded refl

expand_rpc-Sends_example :
    (s : SubjectSet) × (◌≡◌ {A = Option SubjectSet} (some readme_viewer) (some s))
    × (s.namespace ≢ [])
    × (s.object ≢ [])
    × (s.relation ≢ [])
    × (((m : TreeMessage) × (◌≡◌ {A = Option TreeMessage} (some readme_message) (some m))
          × Sends m (bytes "amy"))
        ↔ Granted
            (sql_reader (database rows))
            (chosen_rules sample_store)
            (query_of s (bytes "amy")))
expand_rpc-Sends_example =
    expand_rpc-Sends source (sql_reader (database rows)) (bytes "amy") 3 (some readme_viewer)
      (some readme_message) source-AreUnionRules readme-Agree readme_expanded

-- readme refers to team, and nothing else refers to anything.
abbrev team_tuple : InternalRelationTuple
team_tuple = record {
  namespace = doc;
  object = bytes "readme";
  relation = bytes "viewer";
  subject =
      subject_set (record { namespace = doc; object = bytes "team"; relation = bytes "member" });
}

abbrev team_source : Source
team_source = record {
  configs = sample_store;
  list = λ q. some (if text_eq q.object (bytes "readme") then team_tuple ∷ [] else []);
}

rank : SubjectSet → ℕ
rank s = if text_eq s.object (bytes "readme") then 1 else 0

rank_falls : (target : SubjectSet) → RuleFalls team_source.list rank target self_rewrite
unfolding rank text_eq
rank_falls target = elim (Bool-cases (text_eq target.object (bytes "readme"))) [
  | inl e ↦ rw e ((omega arith, tt), tt)
  | inr e ↦ rw e (tt, tt)
]

team_source-IsRanked : IsRanked team_source rank
team_source-IsRanked = record {
  falls = λ target r h.
      subst (RuleFalls team_source.list rank target)
        (sym (chosen_rule target.namespace target.relation r h)) (rank_falls target);
}

expand_returns_example :
    (r : Result (Option SubjectTree)) × (expand team_source 2 readme_viewer 12 ≡ some r)
unfolding rank text_eq
expand_returns_example =
    expand_returns team_source rank readme_viewer 2 12 team_source-IsRanked (omega arith)

-- loop#member names loop#member.
abbrev loop_set : SubjectSet
loop_set = record { namespace = doc; object = bytes "loop"; relation = bytes "member" }

abbrev loop_tuple : InternalRelationTuple
loop_tuple = record {
  namespace = doc;
  object = bytes "loop";
  relation = bytes "member";
  subject = subject_set loop_set;
}

abbrev loop_source : Source
loop_source = record { configs = sample_store; list = λ q. some (loop_tuple ∷ []) }

loop-IsOwnMember : IsOwnMember loop_source loop_set
unfolding choose list_snapshots choose_among smallest common_timestamps match_all add_all latest
    select get put time_eq text_eq rewrite_from_config
loop-IsOwnMember = record { plain = refl; cyclic = (loop_tuple, refl, refl) }

expand_own-diverges_example : expand loop_source 1000 loop_set 12 ≡ none
expand_own-diverges_example = expand_own-diverges loop_source loop_set 1000 12 loop-IsOwnMember
