-- ===== src/Handler/WriteRpc/Reading.antt =====
-- The loop over the deltas returns only what the request means (Accepted).
use access_controller.Prelude.{
  ℕ, suc, ◌≡◌, refl, sym, ◌∙◌, ap, inl, inr, List, [], ◌∷◌, ◌++◌, arith, Bool-cases, Option-cases,
}
use access_controller.Text.{text_eq, text_eq_iff}
use mathlib.Core.List.{append_assoc, append-nil}
use access_controller.Result.{>>=-returns, found-returns, returns, found}
use access_controller.Config.{rewrite_from_config}
use access_controller.Tuple.{Subject, subject_id, subject_set, InternalRelationTuple, TupleMessage}
use access_controller.Snapshots.{ConfigStore}
use access_controller.Choose.{ConfigSnapshot, choose}
use access_controller.Check.{ellipsis}
use access_controller.Handler.WriteRpc.{
  Action, insert, delete, unspecified, Delta, Mutations, read_tuple, check_relation, check_subject,
  apply_action, read_delta, read_deltas,
}
use access_controller.Handler.WriteRpc.Accepted.{
  IsTupleOf, HasConfig, IsDefinedIn, IsKnownSubject, Accepts, no_deltas, inserted, deleted, ignored,
  read_tuple-IsTupleOf,
}

check_relation-IsDefinedIn :
    (store : ConfigStore) (irt : InternalRelationTuple) (s : ConfigSnapshot) (u : Unit)
    → HasConfig store irt.namespace s
    → check_relation irt s ≡ returns u
    → IsDefinedIn store irt.namespace irt.relation
unfolding check_relation
check_relation-IsDefinedIn store irt s u c h =
    elim (Option-cases (rewrite_from_config irt.relation s.config)) [
      | inl e ↦ absurd (ground arith)
      | inr (r, e) ↦ (s, c, r, e)
    ]

check_subject-IsKnownSubject :
    (store : ConfigStore) (subject : Subject) (u : Unit)
    → check_subject store subject ≡ returns u
    → IsKnownSubject store subject
unfolding check_subject
check_subject-IsKnownSubject store (subject_id id) u h = tt
check_subject-IsKnownSubject store (subject_set set) u h =
    elim (Option-cases (choose store set.namespace)) [
      | inl e ↦ absurd (ground arith)
      | inr (s, e) ↦ elim (Bool-cases (text_eq set.relation ellipsis)) [
        | inl k ↦ (s, e, inl ((text_eq_iff set.relation ellipsis).0 k))
        | inr k ↦ elim (Option-cases (rewrite_from_config set.relation s.config)) [
          | inl n ↦ absurd (ground arith)
          | inr (r, n) ↦ (s, e, inr (r, n))
        ]
      ]
    ]

-- The lists of `m`, with those tuples behind them.
abbrev pub extend : Mutations → List InternalRelationTuple → List InternalRelationTuple → Mutations
extend m inserts deletes = record { inserts = m.inserts ++ inserts; deletes = m.deletes ++ deletes }

-- What the deltas add to the mutations that were read before.
abbrev pub IsRead : ConfigStore → List Delta → Mutations → Mutations → Type 0
IsRead store deltas m m' =
    (inserts : List InternalRelationTuple) × (deletes : List InternalRelationTuple) × Accepts store
      deltas inserts deletes
    × (m' ≡ extend m inserts deletes)

abbrev pub with_insert : Mutations → InternalRelationTuple → Mutations
with_insert m irt = record { inserts = m.inserts ++ irt ∷ []; deletes = m.deletes }

abbrev pub with_delete : Mutations → InternalRelationTuple → Mutations
with_delete m irt = record { inserts = m.inserts; deletes = m.deletes ++ irt ∷ [] }

pub extend-with_insert :
    (m : Mutations) (irt : InternalRelationTuple) (is ds : List InternalRelationTuple)
    → extend (with_insert m irt) is ds ≡ extend m (irt ∷ is) ds
extend-with_insert m irt is ds =
    ap (λ l. record { inserts = l; deletes = m.deletes ++ ds })
      (append_assoc m.inserts (irt ∷ []) is)

pub extend-with_delete :
    (m : Mutations) (irt : InternalRelationTuple) (is ds : List InternalRelationTuple)
    → extend (with_delete m irt) is ds ≡ extend m is (irt ∷ ds)
extend-with_delete m irt is ds =
    ap (λ l. record { inserts = m.inserts ++ is; deletes = l })
      (append_assoc m.deletes (irt ∷ []) ds)

-- The accumulator of one step, replaced by what the step made of it.
extend_step :
    (m m' m'' : Mutations) (is ds : List InternalRelationTuple)
    → returns m ≡ returns m'
    → m'' ≡ extend m' is ds
    → m'' ≡ extend m is ds
extend_step m m' m'' is ds h e = e ∙ ap (λ k. extend k is ds) (sym cc)

apply_action-IsRead :
    (store : ConfigStore) (a : Action) (rt : TupleMessage) (irt : InternalRelationTuple)
    (s : ConfigSnapshot) (deltas : List Delta) (m m' m'' : Mutations)
    → IsTupleOf rt irt
    → HasConfig store irt.namespace s
    → apply_action store a irt s m ≡ returns m'
    → IsRead store deltas m' m''
    → IsRead store (record { action = a; relation_tuple = rt } ∷ deltas) m m''
unfolding apply_action
apply_action-IsRead store insert rt irt s deltas m m' m'' t c h (is, ds, ok, e) =
    let (u, known, h') = >>=-returns (check_relation irt s) _ m' h in
    let (v, subject, h'') = >>=-returns (check_subject store irt.subject) _ m' h' in
    (
      irt ∷ is,
      ds,
      inserted t (check_relation-IsDefinedIn store irt s u c known)
          (check_subject-IsKnownSubject store irt.subject v subject) ok,
      extend_step (with_insert m irt) m' m'' is ds h'' e ∙ extend-with_insert m irt is ds,
    )
apply_action-IsRead store delete rt irt s deltas m m' m'' t c h (is, ds, ok, e) = (
  is,
  irt ∷ ds,
  deleted t c ok,
  extend_step (with_delete m irt) m' m'' is ds h e ∙ extend-with_delete m irt is ds,
)
apply_action-IsRead store unspecified rt irt s deltas m m' m'' t c h (is, ds, ok, e) =
    (is, ds, ignored t c ok, extend_step m m' m'' is ds h e)

read_delta-IsRead :
    (store : ConfigStore) (i : ℕ) (delta : Delta) (deltas : List Delta) (m m' m'' : Mutations)
    → read_delta store i delta m ≡ returns m'
    → IsRead store deltas m' m''
    → IsRead store (delta ∷ deltas) m m''
unfolding read_delta
read_delta-IsRead store i delta deltas m m' m'' h rest =
    let (irt, t, h') = >>=-returns (read_tuple i delta.relation_tuple) _ m' h in
    let (s, c, h'') = >>=-returns (found (choose store irt.namespace) _) _ m' h' in
    apply_action-IsRead store delta.action delta.relation_tuple irt s deltas m m' m''
      (read_tuple-IsTupleOf i delta.relation_tuple irt _ refl t)
      (found-returns (choose store irt.namespace) _ s c) h'' rest

pub read_deltas-IsRead :
    (store : ConfigStore) (i : ℕ) (deltas : List Delta) (m m'' : Mutations)
    → read_deltas store i deltas m ≡ returns m''
    → IsRead store deltas m m''
unfolding read_deltas
read_deltas-IsRead store i [] m m'' h =
    ([], [], no_deltas, rw (append-nil m.inserts, append-nil m.deletes) (sym cc))
read_deltas-IsRead store i (delta ∷ deltas) m m'' h =
    let (m', step, h') = >>=-returns (read_delta store i delta m) _ m'' h in
    read_delta-IsRead store i delta deltas m m' m'' step
      (read_deltas-IsRead store (suc i) deltas m' m'' h')
