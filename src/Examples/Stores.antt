-- ===== src/Examples/Stores.antt =====
-- Transactions on the tables of Tables.
use access_controller.Prelude.{◌≡◌, refl, ◌↔◌, ◌⊎◌, true, false, some, [], ◌∷◌}
use access_controller.Text.{bytes, text_eq, text_ne}
use access_controller.Tuple.{
  subject_id, subject_set, InternalRelationTuple, subject_string, set_string, tuple_string,
}
use access_controller.Store.Transaction.{
  Lookup, insert_row, insert_change, insert_lookups, delete_row, delete_lookups, row_of, change_of,
  lookups_of, inserted, deleted, execute, insert_tuple, delete_tuple, insert_all, delete_all,
  transact_relation_tuples,
}
use access_controller.Store.Effects.{row, change, lookup}
use access_controller.Store.Committed.{Some}
use access_controller.Store.Tables.{
  IsRowOf, transact_relation_tuples-rows, transact_relation_tuples-changes,
}
use access_controller.Store.Lookups.{RefersElsewhere, transact_relation_tuples-stays}
use access_controller.Examples.Tables.{
  Tables, Has, tables, after, tables-IsRelational, adds, removes, row_eq, some_lookup, lookup_eq,
}

abbrev pub readme_viewers : InternalRelationTuple
readme_viewers = record {
  namespace = bytes "doc";
  object = bytes "readme";
  relation = bytes "viewer";
  subject =
      subject_set
        (record { namespace = bytes "doc"; object = bytes "team"; relation = bytes "member" });
}

abbrev pub amy_views_readme : InternalRelationTuple
amy_views_readme = record readme_viewers { subject = subject_id (bytes "amy") }

-- The tuple of the team is stored, with its lookup rows.
abbrev stored : Tables
stored =
    after (insert_lookups (lookups_of readme_viewers))
      (after (insert_row (bytes "doc") (row_of readme_viewers)) (λ i. false))

-- amy is inserted and the team is deleted.
abbrev replaced : Tables
replaced = after (insert_change (change_of 9 deleted readme_viewers)) (
    after (delete_lookups (lookups_of readme_viewers)) (
      after (delete_row (bytes "doc") (row_of readme_viewers)) (
        after (insert_lookups (lookups_of amy_views_readme)) (
          after (insert_change (change_of 9 inserted amy_views_readme))
            (after (insert_row (bytes "doc") (row_of amy_views_readme)) stored)))))

replaced_run :
    transact_relation_tuples tables stored (amy_views_readme ∷ []) (readme_viewers ∷ [])
    ≡ some replaced
unfolding transact_relation_tuples insert_all delete_all insert_tuple delete_tuple execute
replaced_run = refl

transact_relation_tuples-rows_example : Has replaced (row (bytes "doc") (row_of readme_viewers)) ↔ (
    (Some (IsRowOf (bytes "doc") (row_of readme_viewers)) (amy_views_readme ∷ [])
      ⊎ Has stored (row (bytes "doc") (row_of readme_viewers)))
    × ¬ Some (IsRowOf (bytes "doc") (row_of readme_viewers)) (readme_viewers ∷ []))
transact_relation_tuples-rows_example =
    transact_relation_tuples-rows tables Has Has stored replaced (amy_views_readme ∷ [])
      (readme_viewers ∷ []) (bytes "doc") (row_of readme_viewers) tables-IsRelational replaced_run

team_gone : replaced (row (bytes "doc") (row_of readme_viewers)) ≡ false
unfolding after adds removes row_eq text_eq subject_string set_string
team_gone = refl

transact_relation_tuples-changes_example :
    Has replaced (change (change_of 9 inserted amy_views_readme)) ↔ (
      Some
        (λ t. change_of 9 inserted amy_views_readme ≡ change_of 9 deleted t)
        (readme_viewers ∷ [])
      ⊎ Some
          (λ t. change_of 9 inserted amy_views_readme ≡ change_of 9 inserted t)
          (amy_views_readme ∷ [])
      ⊎ Has stored (change (change_of 9 inserted amy_views_readme)))
transact_relation_tuples-changes_example =
    transact_relation_tuples-changes tables Has Has stored replaced (amy_views_readme ∷ [])
      (readme_viewers ∷ []) (change_of 9 inserted amy_views_readme) tables-IsRelational replaced_run

team_deleted :
    transact_relation_tuples tables stored [] (readme_viewers ∷ [])
    ≡ some (
        after (insert_change (change_of 9 deleted readme_viewers)) (
          after
            (delete_lookups (lookups_of readme_viewers))
            (after (delete_row (bytes "doc") (row_of readme_viewers)) stored)))
unfolding transact_relation_tuples insert_all delete_all delete_tuple execute
team_deleted = refl

team_elsewhere : RefersElsewhere readme_viewers
unfolding text_eq
team_elsewhere = (
  record { namespace = bytes "doc"; object = bytes "team"; relation = bytes "member" },
  refl,
  λ (n, r). text_ne (bytes "member") (bytes "viewer") refl r,
)

-- The deleted tuple refers to doc#member for ever.
abbrev member_lookup : Lookup
member_lookup = record {
  namespace = bytes "doc";
  relation = bytes "member";
  relationtuple = tuple_string readme_viewers;
}

transact_relation_tuples-stays_example :
    Has
      (after (insert_change (change_of 9 deleted readme_viewers)) (
        after
          (delete_lookups (lookups_of readme_viewers))
          (after (delete_row (bytes "doc") (row_of readme_viewers)) stored)))
      (lookup member_lookup)
    ↔ Has stored (lookup member_lookup)
transact_relation_tuples-stays_example =
    transact_relation_tuples-stays tables Has Has stored _ (readme_viewers ∷ []) member_lookup
      tables-IsRelational (team_elsewhere, tt) team_deleted

member_in_use : stored (lookup member_lookup) ≡ true
unfolding after adds removes some_lookup lookup_eq row_eq text_eq subject_string set_string
    tuple_string
member_in_use = refl
