-- ===== src/Store/Transaction.antt =====
-- SQLStore.TransactRelationTuples (internal/datastores/sql-store.go): the statements of one
-- transaction, in order.
use access_controller.Prelude.{ℕ, Option, none, some, List, [], ◌∷◌}
use access_controller.Text.{Text, bytes}
use access_controller.Tuple.{
  Subject, subject_id, subject_set, InternalRelationTuple, subject_string, tuple_string,
}
use access_controller.Handler.WriteRpc.{Transact}
use access_controller.Store.{Row}

-- A row of "namespace-relation-lookup".
pub record Lookup : Type 0 where
  pub namespace : Text
  pub relation : Text
  pub relationtuple : Text

-- A row of "changelog"; the timestamp is an instant.
pub record Change : Type 0 where
  pub namespace : Text
  pub operation : Text
  pub relationtuple : Text
  pub timestamp : ℕ

-- The insertions are ON CONFLICT DO NOTHING.
pub data Statement : Type 0 where
  insert_row : Text → Row → Statement
  insert_change : Change → Statement
  insert_lookups : List Lookup → Statement
  -- DELETE FROM the namespace's table WHERE each column is as in the row
  delete_row : Text → Row → Statement
  -- DELETE FROM "namespace-relation-lookup" WHERE every one of the conditions
  delete_lookups : List Lookup → Statement

-- sql.DB and sql.Tx, on a database `D` and one with an open transaction `T`; `none` is an error, of
-- the builder too.
pub record Connection (D T : Type 0) : Type 0 where
  pub begin : D → Option T
  -- NOW() in a transaction that begins on the database: the time at which it starts, for each of its
  -- statements
  pub now : D → ℕ
  pub exec : Statement → T → Option T
  pub finish : T → Option D

abbrev pub row_of : InternalRelationTuple → Row
row_of t = record { object = t.object; relation = t.relation; subject = subject_string t.subject }

abbrev pub change_of : ℕ → Text → InternalRelationTuple → Change
change_of now operation t = record {
  namespace = t.namespace;
  operation = operation;
  relationtuple = tuple_string t;
  timestamp = now;
}

-- the lookup rows of the subject of a tuple
abbrev pub subject_lookups : Subject → Text → List Lookup
subject_lookups (subject_id id) text = []
subject_lookups (subject_set s) text =
    record { namespace = s.namespace; relation = s.relation; relationtuple = text } ∷ []

-- values, and expressions
abbrev pub lookups_of : InternalRelationTuple → List Lookup
lookups_of t =
    record { namespace = t.namespace; relation = t.relation; relationtuple = tuple_string t }
    ∷ subject_lookups t.subject (tuple_string t)

abbrev pub inserted : Text
inserted = bytes "INSERT"

abbrev pub deleted : Text
deleted = bytes "DELETE"

-- The transaction goes on, or the function has returned an error and leaves the transaction open: it
-- is neither committed nor rolled back.
pub data Progress (T : Type 0) : Type 0 where
  running : T → Progress T
  stopped : T → Progress T

module _ {D T : Type 0} (c : Connection D T) where
  abbrev pub executed : T → Option T → Progress T
  executed t none = stopped t
  executed t (some t') = running t'

  unfoldable pub execute : Statement → Progress T → Progress T
  execute statement (stopped t) = stopped t
  execute statement (running t) = executed t (c.exec statement t)

module _ {D T : Type 0} (c : Connection D T) (now : ℕ) where
  -- the body of the loop over the insertions
  unfoldable pub insert_tuple : InternalRelationTuple → Progress T → Progress T
  insert_tuple t p = execute c (insert_lookups (lookups_of t)) (
      execute c (insert_change (change_of now inserted t))
        (execute c (insert_row t.namespace (row_of t)) p))

  -- the body of the loop over the deletions
  unfoldable pub delete_tuple : InternalRelationTuple → Progress T → Progress T
  delete_tuple t p =
      execute c (insert_change (change_of now deleted t)) (
        execute c (delete_lookups (lookups_of t)) (execute c (delete_row t.namespace (row_of t)) p))

  unfoldable pub insert_all : List InternalRelationTuple → Progress T → Progress T
  insert_all [] p = p
  insert_all (t ∷ ts) p = insert_all ts (insert_tuple t p)

  unfoldable pub delete_all : List InternalRelationTuple → Progress T → Progress T
  delete_all [] p = p
  delete_all (t ∷ ts) p = delete_all ts (delete_tuple t p)

module _ {D T : Type 0} (c : Connection D T) where
  abbrev pub commit : Progress T → Option D
  commit (stopped t) = none
  commit (running t) = c.finish t

  abbrev pub in_transaction :
      ℕ → Option T → List InternalRelationTuple → List InternalRelationTuple → Option D
  in_transaction now none inserts deletes = none
  in_transaction now (some t) inserts deletes =
      commit (delete_all c now deletes (insert_all c now inserts (running t)))

  -- TransactRelationTuples: the database after the commit, or an error
  unfoldable pub transact_relation_tuples : Transact D
  transact_relation_tuples db inserts deletes =
      in_transaction (c.now db) (c.begin db) inserts deletes
