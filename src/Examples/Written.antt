-- ===== src/Examples/Written.antt =====
-- A tuple that is written is seen by a check.
use access_controller.Prelude.{
  ◌≡◌, refl, ◌↔◌, inl, false, some, List, [], ◌∷◌, In, arith, if◌then◌else◌,
}
use access_controller.Text.{Text, bytes, text_eq, text_eq_iff}
use access_controller.Config.{self_rewrite}
use access_controller.Check.Semantics.{Rules, Granted}
use access_controller.Store.{Row, sql_reader}
use access_controller.Store.Transaction.{
  insert_row, insert_change, insert_lookups, row_of, change_of, lookups_of, inserted, execute,
  insert_tuple, insert_all, delete_all, transact_relation_tuples,
}
use access_controller.Store.Effects.{row}
use access_controller.Store.Written.{check_of, transact_relation_tuples-Granted}
use access_controller.Examples.Databases.{database, database-Answers}
use access_controller.Examples.Stores.{amy_views_readme}
use access_controller.Examples.Tables.{
  Tables, Has, tables, after, tables-IsRelational, adds, removes, row_eq_iff,
}

abbrev no_rows : Tables
no_rows i = false

abbrev amy_written : Tables
amy_written = after (insert_lookups (lookups_of amy_views_readme)) (
    after (insert_change (change_of 9 inserted amy_views_readme))
      (after (insert_row (bytes "doc") (row_of amy_views_readme)) no_rows))

amy_run : transact_relation_tuples tables no_rows (amy_views_readme ∷ []) [] ≡ some amy_written
unfolding transact_relation_tuples insert_all delete_all insert_tuple execute
amy_run = refl

rows : Text → List Row
rows namespace = if text_eq namespace (bytes "doc") then row_of amy_views_readme ∷ [] else []

rows_written :
    (namespace : Text) (r : Row) → In r (rows namespace) ↔ Has amy_written (row namespace r)
unfolding rows after adds removes
rows_written namespace r =
    ground (arith, text_eq_iff namespace (bytes "doc"), row_eq_iff r (row_of amy_views_readme))

abbrev plain_rules : Rules
plain_rules namespace relation = some self_rewrite

transact_relation_tuples-Granted_example :
    Granted (sql_reader (database rows)) plain_rules (check_of amy_views_readme (bytes "amy"))
transact_relation_tuples-Granted_example =
    transact_relation_tuples-Granted tables Has Has no_rows amy_written (amy_views_readme ∷ []) []
      (database rows) rows plain_rules amy_views_readme (bytes "amy") tables-IsRelational amy_run
      (database-Answers rows) rows_written (inl refl) (λ (t, m, k). m) refl refl
