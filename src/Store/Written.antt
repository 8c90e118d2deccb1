-- ===== src/Store/Written.antt =====
-- What a check sees of a transaction.
use access_controller.Prelude.{◌≡◌, refl, ◌↔◌, inl, some, List, [], ◌∷◌, In}
use access_controller.Text.{Text}
use access_controller.Config.{self_rewrite}
use access_controller.Tuple.{subject_id, subject_string, InternalRelationTuple}
use access_controller.Check.Types.{Query}
use access_controller.Check.Semantics.{Rules, Granted, by_rule, in_union, first, direct}
use access_controller.Store.{Row, Database, count_query, row_count, sql_reader}
use access_controller.Store.Rows.{Answers}
use access_controller.Store.Transaction.{Connection, row_of, transact_relation_tuples}
use access_controller.Store.Effects.{Item, row, IsRelational}
use access_controller.Store.Committed.{Some}
use access_controller.Store.Tables.{IsRowOf, transact_relation_tuples-rows}

-- The check whether the user has the relation of the tuple.
abbrev pub check_of : InternalRelationTuple → Text → Query
check_of t user = record {
  namespace = t.namespace;
  object = t.object;
  relation = t.relation;
  user = user;
}

row_of_user :
    (t : InternalRelationTuple) (user : Text)
    → t.subject ≡ subject_id user
    → subject_string t.subject ≡ user
unfolding subject_string
row_of_user t user e = rw e refl

-- If a transaction that is committed on a relational database inserts a tuple that names a user and
-- deletes no tuple with the same row, and the queries afterwards are answered from the tables as the
-- transaction left them, then the user is granted the relation of the tuple, provided that it has no
-- rewrite rule of its own.
pub transact_relation_tuples-Granted :
    {D T : Type 0} (c : Connection D T) (Stored : D → Item → Type 0) (Holds : T → Item → Type 0)
    (d e : D) (ins del : List InternalRelationTuple) (db : Database) (rows : Text → List Row)
    (rules : Rules) (t : InternalRelationTuple) (user : Text)
    → IsRelational c Stored Holds
    → transact_relation_tuples c d ins del ≡ some e
    → Answers db rows
    → ((namespace : Text) (r : Row) → In r (rows namespace) ↔ Stored e (row namespace r))
    → In t ins
    → ¬ Some (IsRowOf t.namespace (row_of t)) del
    → t.subject ≡ subject_id user
    → rules t.namespace t.relation ≡ some self_rewrite
    → Granted (sql_reader db) rules (check_of t user)
unfolding row_count subject_string
transact_relation_tuples-Granted c Stored Holds d e ins del db rows rules t user relational run
      answers are m kept names rule =
    let stored =
      (transact_relation_tuples-rows c Stored Holds d e ins del t.namespace (row_of t) relational
          run).1
        (inl (t, m, (refl, refl)), kept) in
    let (n, k) =
      (answers.number (
          count_query (record { namespace = t.namespace; id = t.object }) (t.relation ∷ [])
            (subject_id user))).1
        (
          row_of t,
          (are t.namespace (row_of t)).1 stored,
          (refl, inl refl, row_of_user t user names),
        ) in
    by_rule rule (in_union (first (direct k)))
