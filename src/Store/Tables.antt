-- ===== src/Store/Tables.antt =====
-- What a committed transaction leaves in the namespaces' tables and in the changelog.
use access_controller.Prelude.{ℕ, ◌≡◌, refl, ap, ◌↔◌, ◌⊎◌, inl, inr, some, List}
use access_controller.Text.{Text}
use access_controller.Tuple.{InternalRelationTuple}
use access_controller.Store.{Row}
use access_controller.Store.Transaction.{
  Change, Connection, row_of, change_of, inserted, deleted, transact_relation_tuples,
}
use access_controller.Store.Effects.{Item, row, change, IsRelational, Inserted, Deleted}
use access_controller.Store.Committed.{Some, kept_effect, change_effect}

-- The tuple is stored in the namespace's table as the row.
abbrev pub IsRowOf : Text → Row → InternalRelationTuple → Type 0
IsRowOf namespace r t = (namespace ≡ t.namespace) × (r ≡ row_of t)

Inserted-row :
    (now : ℕ) (n : Text) (r : Row) (t : InternalRelationTuple)
    → Inserted now t (row n r) ↔ IsRowOf n r t
Inserted-row now n r t = (
  λ h. elim h [ inl e ↦ (cc, cc) | inr (inl e) ↦ cc | inr (inr (l, m, e)) ↦ cc ],
  λ (p, q). inl (rw p (rw q refl)),
)

Deleted-row : (n : Text) (r : Row) (t : InternalRelationTuple) → Deleted t (row n r) ↔ IsRowOf n r t
Deleted-row n r t =
    (λ h. elim h [ inl e ↦ (cc, cc) | inr (l, e, all) ↦ cc ], λ (p, q). inl (rw p (rw q refl)))

pub Some-map :
    {P Q : InternalRelationTuple → Type 0} (ts : List InternalRelationTuple)
    → ((t : InternalRelationTuple) → P t → Q t)
    → Some P ts
    → Some Q ts
Some-map ts f (t, m, k) = (t, m, f t k)

-- After a transaction that is committed on a relational database, a namespace's table has the rows
-- of the inserted tuples beside those that it had, without the rows of the deleted tuples: a tuple
-- that is both inserted and deleted is gone.
pub transact_relation_tuples-rows :
    {D T : Type 0} (c : Connection D T) (Stored : D → Item → Type 0) (Holds : T → Item → Type 0)
    (d e : D) (ins del : List InternalRelationTuple) (namespace : Text) (r : Row)
    → IsRelational c Stored Holds
    → transact_relation_tuples c d ins del ≡ some e
    → Stored e (row namespace r) ↔ (
        (Some (IsRowOf namespace r) ins ⊎ Stored d (row namespace r))
        × ¬ Some (IsRowOf namespace r) del)
unfolding transact_relation_tuples
transact_relation_tuples-rows c Stored Holds d e ins del n r relational h =
    let all =
      kept_effect c Stored Holds relational (c.now d) (row n r) (λ x. cc) d e ins del (c.begin d)
        refl h in
    (
      λ k.
          let (a, b) = all.0 k in
          (
            elim a [
              | inl x ↦ inl (Some-map ins (λ t. (Inserted-row (c.now d) n r t).0) x)
              | inr x ↦ inr x
            ],
            λ x. b (Some-map del (λ t. (Deleted-row n r t).1) x),
          ),
      λ (a, b). all.1 (
        elim a [
          | inl x ↦ inl (Some-map ins (λ t. (Inserted-row (c.now d) n r t).1) x)
          | inr x ↦ inr x
        ],
        λ x. b (Some-map del (λ t. (Deleted-row n r t).0) x),
      ),
    )

inserted_change :
    (now : ℕ) (x : Change) (t : InternalRelationTuple)
    → Inserted now t (change x) ↔ (x ≡ change_of now inserted t)
inserted_change now x t = (
  λ h. elim h [ inl e ↦ cc | inr (inl e) ↦ cc | inr (inr (l, m, e)) ↦ cc ],
  λ p. inr (inl (ap change p)),
)

-- After a transaction that is committed on a relational database, the changelog, a set of entries with
-- their timestamps, has the entries that it had and, at the time at which the transaction started, an
-- entry "INSERT" for each inserted tuple and an entry "DELETE" for each deleted tuple, and no others.
pub transact_relation_tuples-changes :
    {D T : Type 0} (c : Connection D T) (Stored : D → Item → Type 0) (Holds : T → Item → Type 0)
    (d e : D) (ins del : List InternalRelationTuple) (x : Change)
    → IsRelational c Stored Holds
    → transact_relation_tuples c d ins del ≡ some e
    → Stored e (change x) ↔ (
        Some (λ t. x ≡ change_of (c.now d) deleted t) del
        ⊎ Some (λ t. x ≡ change_of (c.now d) inserted t) ins
        ⊎ Stored d (change x))
unfolding transact_relation_tuples
transact_relation_tuples-changes c Stored Holds d e ins del x relational h =
    let all = change_effect c Stored Holds relational (c.now d) x d e ins del (c.begin d) refl h in
    (
      λ k. elim (all.0 k) [
        | inl a ↦ inl a
        | inr (inl a) ↦ inr (inl (Some-map ins (λ t. (inserted_change (c.now d) x t).0) a))
        | inr (inr a) ↦ inr (inr a)
      ],
      λ k. elim k [
        | inl a ↦ all.1 (inl a)
        | inr (inl a) ↦ all.1 (inr (inl (Some-map ins (λ t. (inserted_change (c.now d) x t).1) a)))
        | inr (inr a) ↦ all.1 (inr (inr a))
      ],
    )
