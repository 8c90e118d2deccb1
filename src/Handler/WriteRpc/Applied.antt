-- ===== src/Handler/WriteRpc/Applied.antt =====
-- When WriteRelationTuplesTxn changes the tuples: exactly for the requests that are accepted.
use mathlib.Core.List.{append-nil}
use access_controller.Prelude.{
  ℕ, suc, ◌<◌, ◌+◌, ◌≡◌, refl, ◌∙◌, ap, ◌↔◌, inl, inr, Option, none, some, List, [], length, arith,
  Bool-cases, Option-cases,
}
use access_controller.Text.{text_eq, text_eq_iff}
use access_controller.Status.{Failure}
use access_controller.Result.{Result, returns, fails}
use access_controller.Config.{Rewrite, rewrite_from_config}
use access_controller.Tuple.{Subject, subject_id, subject_set, InternalRelationTuple, TupleMessage}
use access_controller.Snapshots.{ConfigStore}
use access_controller.Choose.{ConfigSnapshot}
use access_controller.Check.{ellipsis}
use access_controller.Handler.WriteRpc.{
  Action, insert, delete, unspecified, Delta, Mutations, Transact, check_relation, check_subject,
  apply_action, read_delta, read_deltas, run_mutations, run_read, write_rpc, commit,
}
use access_controller.Handler.WriteRpc.Accepted.{
  IsTupleOf, HasConfig, IsKnownSubject, Accepts, no_deltas, inserted, deleted, ignored,
  IsTupleOf-read_tuple,
}
use access_controller.Handler.WriteRpc.Reading.{
  extend, with_insert, with_delete, extend-with_insert, extend-with_delete, read_deltas-IsRead,
}

known_subject :
    (store : ConfigStore) (subject : Subject)
    → IsKnownSubject store subject
    → check_subject store subject ≡ returns tt
unfolding check_subject
known_subject store (subject_id id) h = refl
known_subject store (subject_set set) (s, c, inl e) =
    rw (c, (text_eq_iff set.relation ellipsis).1 e) refl
known_subject store (subject_set set) (s, c, inr (r, e)) =
    elim (Bool-cases (text_eq set.relation ellipsis)) [
      | inl k ↦ rw (c, k) refl
      | inr k ↦ rw (c, k, e) refl
    ]

read_delta_lem :
    (store : ConfigStore) (i : ℕ) (a : Action) (rt : TupleMessage) (irt : InternalRelationTuple)
    (s : ConfigSnapshot) (m : Mutations)
    → IsTupleOf rt irt
    → HasConfig store irt.namespace s
    → read_delta store i (record { action = a; relation_tuple = rt }) m
      ≡ apply_action store a irt s m
unfolding read_delta
read_delta_lem store i a rt irt s m t c = rw (IsTupleOf-read_tuple i rt irt t, c) refl

insert_lem :
    (store : ConfigStore) (irt : InternalRelationTuple) (s : ConfigSnapshot) (r : Rewrite)
    (m : Mutations)
    → rewrite_from_config irt.relation s.config ≡ some r
    → IsKnownSubject store irt.subject
    → apply_action store insert irt s m ≡ returns (with_insert m irt)
unfolding apply_action check_relation
insert_lem store irt s r m e k = rw (e, known_subject store irt.subject k) refl

pub Accepts-read_deltas :
    (store : ConfigStore) (i : ℕ) (deltas : List Delta) (m : Mutations)
    (is ds : List InternalRelationTuple)
    → Accepts store deltas is ds
    → read_deltas store i deltas m ≡ returns (extend m is ds)
unfolding read_deltas apply_action
Accepts-read_deltas store i [] m is ds no_deltas =
    rw (append-nil m.inserts, append-nil m.deletes) refl
Accepts-read_deltas store i _ m _ ds
      (inserted {rt} {irt} {deltas} {inserts = is} t (s, c, r, e) k rest) =
    rw (read_delta_lem store i insert rt irt s m t c, insert_lem store irt s r m e k)
      (Accepts-read_deltas store (suc i) deltas (with_insert m irt) is ds rest
        ∙ ap returns (extend-with_insert m irt is ds))
Accepts-read_deltas store i _ m is _ (deleted {rt} {irt} {deltas} {deletes = ds} {s} t c rest) =
    rw (read_delta_lem store i delete rt irt s m t c) (
      Accepts-read_deltas store (suc i) deltas (with_delete m irt) is ds rest
      ∙ ap returns (extend-with_delete m irt is ds))
Accepts-read_deltas store i _ m is ds (ignored {rt} {irt} {deltas} {s = s} t c rest) =
    rw (read_delta_lem store i unspecified rt irt s m t c)
      (Accepts-read_deltas store (suc i) deltas m is ds rest)

module _ {S : Type 0} (transact : Transact S) where
  -- The request is accepted and changes something, and the transaction succeeds.
  pub record IsApplied (store : ConfigStore) (deltas : List Delta) (db db' : S) : Type 0 where
    pub inserts : List InternalRelationTuple
    pub deletes : List InternalRelationTuple
    pub accepted : Accepts store deltas inserts deletes
    pub some_change : 0 < length inserts + length deletes
    pub committed : transact db inserts deletes ≡ some db'

  run_mutations-returns :
      (db db' : S) (m : Mutations) (o : Option S)
      → transact db m.inserts m.deletes ≡ o
      → run_mutations transact db m ≡ (returns tt, db')
      → (0 < length m.inserts + length m.deletes) × (transact db m.inserts m.deletes ≡ some db')
  unfolding run_mutations commit
  run_mutations-returns db db' m none e h = ground arith
  run_mutations-returns db db' m (some x) e h = ground arith

  run_mutations_lem :
      (db db' : S) (m : Mutations)
      → 0 < length m.inserts + length m.deletes
      → transact db m.inserts m.deletes ≡ some db'
      → run_mutations transact db m ≡ (returns tt, db')
  unfolding run_mutations commit
  run_mutations_lem db db' m h e = ground arith

  run_read-IsApplied :
      (store : ConfigStore) (deltas : List Delta) (db db' : S) (r : Result Mutations)
      → read_deltas store 0 deltas (record { inserts = []; deletes = [] }) ≡ r
      → run_read transact db r ≡ (returns tt, db')
      → IsApplied store deltas db db'
  run_read-IsApplied store deltas db db' (fails e) h k = cc
  run_read-IsApplied store deltas db db' (returns m) h k =
      let (is, ds, ok, e) =
        read_deltas-IsRead store 0 deltas (record { inserts = []; deletes = [] }) m h in
      let (some_change, committed) = run_mutations-returns db db' m _ refl k in
      record {
        inserts = is;
        deletes = ds;
        accepted = ok;
        some_change = rw e at some_change;
        committed = rw e at committed;
      }

  IsApplied-write_rpc :
      (store : ConfigStore) (deltas : List Delta) (db db' : S)
      → IsApplied store deltas db db'
      → write_rpc transact store deltas db ≡ (returns tt, db')
  unfolding write_rpc
  IsApplied-write_rpc store deltas db db' a =
      rw
        (Accepts-read_deltas store 0 deltas (record { inserts = []; deletes = [] }) a.inserts
          a.deletes a.accepted)
        (run_mutations_lem db db' (record { inserts = a.inserts; deletes = a.deletes })
          a.some_change a.committed)

  run_mutations-fails :
      (db : S) (m : Mutations) (e : Failure)
      → (run_mutations transact db m).0 ≡ fails e
      → (run_mutations transact db m).1 ≡ db
  unfolding run_mutations commit
  run_mutations-fails db m e h = elim (Option-cases (transact db m.inserts m.deletes)) [
    | inl k ↦ ground arith
    | inr (x, k) ↦ ground arith
  ]

  run_read-fails :
      (db : S) (r : Result Mutations) (e : Failure)
      → (run_read transact db r).0 ≡ fails e
      → (run_read transact db r).1 ≡ db
  run_read-fails db (fails f) e h = refl
  run_read-fails db (returns m) e h = run_mutations-fails db m e h

-- WriteRelationTuplesTxn succeeds with a new state of the database exactly when each delta names a
-- whole tuple in a known namespace, each insertion's relation and subject set are defined, there is
-- something to insert or to delete, and one transaction of exactly these tuples, in the order of the
-- request, leads to that state.
pub write_rpc-IsApplied :
    {S : Type 0} (transact : Transact S) (store : ConfigStore) (deltas : List Delta) (db db' : S)
    → (write_rpc transact store deltas db ≡ (returns tt, db'))
      ↔ IsApplied transact store deltas db db'
unfolding write_rpc
write_rpc-IsApplied transact store deltas db db' = (
  run_read-IsApplied transact store deltas db db' _ refl,
  IsApplied-write_rpc transact store deltas db db',
)

-- If WriteRelationTuplesTxn returns an error, whichever delta it is for, the database is as before.
pub write_rpc-fails :
    {S : Type 0} (transact : Transact S) (store : ConfigStore) (deltas : List Delta) (db : S)
    (e : Failure)
    → (write_rpc transact store deltas db).0 ≡ fails e
    → (write_rpc transact store deltas db).1 ≡ db
unfolding write_rpc
write_rpc-fails transact store deltas db e h = run_read-fails transact db _ e h
