-- ===== src/Handler/WriteRpc.antt =====
-- AccessController.WriteRelationTuplesTxn (internal/access-controller.go): the validation of the
-- deltas of a request, one after the other, and the transaction that applies them.
pub mod Accepted
pub mod Reading
pub mod Applied
use access_controller.Prelude.{
  ℕ, suc, Bool, true, not, Option, none, some, List, [], ◌∷◌, ◌++◌, ◌==◌, ◌&&◌, length,
  if◌then◌else◌,
}
use access_controller.Text.{Text, bytes, text_eq, is_empty}
use access_controller.Status.{
  Failure, status, invalid_argument, mutation_field_required, no_mutations, internal_status,
  to_status, namespace_doesnt_exist, namespace_relation_undefined, namespace_undefined,
  relation_undefined, set_namespace_undefined, set_relation_undefined,
}
use access_controller.Result.{Result, returns, fails, ◌>>=◌, ◌>>◌, require, found}
use access_controller.Config.{Rewrite, rewrite_from_config}
use access_controller.Tuple.{
  Subject, subject_id, subject_set, InternalRelationTuple, TupleMessage, subject_string,
  subject_from_proto,
}
use access_controller.Snapshots.{ConfigStore}
use access_controller.Choose.{ConfigSnapshot, choose}
use access_controller.Check.{ellipsis, undefined_namespace}

-- RelationTupleDelta.Action; `unspecified` stands for every other value
pub data Action : Type 0 where
  insert delete unspecified : Action

-- RelationTupleDelta; a missing tuple reads as an empty one
pub record Delta : Type 0 where
  pub action : Action
  pub relation_tuple : TupleMessage

-- the variables inserts and deletes
pub record Mutations : Type 0 where
  pub inserts : List InternalRelationTuple
  pub deletes : List InternalRelationTuple

-- "invalid mutation at index '%d' - '%s' is a required field and cannot be empty", or "be nil"
abbrev required_at : ℕ → Text → Failure
required_at i field = status invalid_argument (mutation_field_required i field)

-- the fields of the tuple, in the order in which they are tested
unfoldable pub read_tuple : ℕ → TupleMessage → Result InternalRelationTuple
read_tuple i rt = do
  require (not (is_empty rt.namespace)) (required_at i (bytes "namespace"))
  require (not (is_empty rt.object)) (required_at i (bytes "object"))
  require (not (is_empty rt.relation)) (required_at i (bytes "relation"))
  subject ← found (subject_from_proto rt.subject) (required_at i (bytes "subject"))
  returns (record {
    namespace = rt.namespace;
    object = rt.object;
    relation = rt.relation;
    subject = subject;
  })

-- if the rule is nil, return the error
abbrev pub need_rule : Option Rewrite → Failure → Result (Unit {0})
need_rule none e = fails e
need_rule (some rule) e = returns tt

-- the relation of an inserted tuple
unfoldable pub check_relation : InternalRelationTuple → ConfigSnapshot → Result (Unit {0})
check_relation irt s = need_rule (rewrite_from_config irt.relation s.config) (
    to_status namespace_relation_undefined
      (relation_undefined irt.relation irt.namespace s.timestamp))

-- the namespace and the relation of the subject set of an inserted tuple
unfoldable pub check_subject : ConfigStore → Subject → Result (Unit {0})
check_subject store (subject_id id) = returns tt
check_subject store (subject_set set) = do
  s ← found (choose store set.namespace) (
      to_status namespace_doesnt_exist
        (set_namespace_undefined (subject_string (subject_set set)) set.namespace))
  if text_eq set.relation ellipsis
      then returns tt
      else need_rule (rewrite_from_config set.relation s.config) (
          to_status namespace_relation_undefined (
            set_relation_undefined (subject_string (subject_set set)) set.relation set.namespace
              s.timestamp))

-- the switch over the action
unfoldable pub apply_action :
    ConfigStore → Action → InternalRelationTuple → ConfigSnapshot → Mutations → Result Mutations
apply_action store insert irt s m = do
  check_relation irt s
  check_subject store irt.subject
  returns (record { inserts = m.inserts ++ irt ∷ []; deletes = m.deletes })
apply_action store delete irt s m =
    returns (record { inserts = m.inserts; deletes = m.deletes ++ irt ∷ [] })
apply_action store unspecified irt s m = returns m

-- the body of the loop over the deltas
unfoldable pub read_delta : ConfigStore → ℕ → Delta → Mutations → Result Mutations
read_delta store i delta m = do
  irt ← read_tuple i delta.relation_tuple
  s ← found (choose store irt.namespace) (undefined_namespace irt.namespace)
  apply_action store delta.action irt s m

-- for i, delta := range
unfoldable pub read_deltas : ConfigStore → ℕ → List Delta → Mutations → Result Mutations
read_deltas store i [] m = returns m
read_deltas store i (delta ∷ deltas) m =
    read_delta store i delta m >>= λ m'. read_deltas store (suc i) deltas m'

-- RelationTupleStore.TransactRelationTuples on a database in some state: the new state, or an error,
-- which leaves the database as it is.
abbrev pub Transact {ℓ} : Type ℓ → Type ℓ
Transact S = S → List InternalRelationTuple → List InternalRelationTuple → Option S

module _ {S : Type 0} (transact : Transact S) where
  commit : S → Option S → Result (Unit {0}) × S
  commit db none = (fails internal_status, db)
  commit db (some db') = (returns tt, db')

  unfoldable pub run_mutations : S → Mutations → Result (Unit {0}) × S
  unfolding commit
  run_mutations db m =
      if length m.inserts == 0 && length m.deletes == 0
      then (fails (status invalid_argument no_mutations), db)
      else commit db (transact db m.inserts m.deletes)

  abbrev run_read : S → Result Mutations → Result (Unit {0}) × S
  run_read db (fails e) = (fails e, db)
  run_read db (returns m) = run_mutations db m

  -- WriteRelationTuplesTxn
  unfoldable pub write_rpc : ConfigStore → List Delta → S → Result (Unit {0}) × S
  write_rpc store deltas db =
      run_read db (read_deltas store 0 deltas (record { inserts = []; deletes = [] }))
