-- ===== src/Store/Effects.antt =====
-- What the statements of a transaction do to the rows of the tables.
use access_controller.Prelude.{ℕ, ◌≡◌, refl, ◌↔◌, ◌⊎◌, inl, inr, Option, none, some, In, All}
use access_controller.Text.{Text}
use access_controller.Tuple.{InternalRelationTuple}
use access_controller.Store.{Row}
use access_controller.Store.Transaction.{
  Lookup, Change, Statement, insert_row, insert_change, insert_lookups, delete_row, delete_lookups,
  Connection, row_of, change_of, lookups_of, inserted, deleted, Progress, running, stopped,
  executed, execute, insert_tuple, delete_tuple,
}

-- A row of one of the tables.
pub data Item : Type 0 where
  row : Text → Row → Item
  change : Change → Item
  lookup : Lookup → Item

-- The rows that a statement inserts and those that it deletes.
abbrev pub Adds : Statement → Item → Type 0
Adds (insert_row n r) i = i ≡ row n r
Adds (insert_change c) i = i ≡ change c
Adds (insert_lookups ls) i = (l : Lookup) × In l ls × (i ≡ lookup l)
Adds (delete_row n r) i = ⊥
Adds (delete_lookups ls) i = ⊥

abbrev pub Removes : Statement → Item → Type 0
Removes (insert_row n r) i = ⊥
Removes (insert_change c) i = ⊥
Removes (insert_lookups ls) i = ⊥
Removes (delete_row n r) i = i ≡ row n r
Removes (delete_lookups ls) i = (l : Lookup) × (i ≡ lookup l) × All (λ k. l ≡ k) ls

-- A connection to a relational database whose tables have the rows that `Stored` and `Holds` say,
-- outside a transaction and inside one.
pub record IsRelational {D T : Type 0} (c : Connection D T) (Stored : D → Item → Type 0)
    (Holds : T → Item → Type 0) : Type 0 where
  pub begins : (d : D) (t : T) → c.begin d ≡ some t → (i : Item) → Holds t i ↔ Stored d i
  pub effect :
      (s : Statement) (t u : T)
      → c.exec s t ≡ some u
      → (i : Item) → Holds u i ↔ (Adds s i ⊎ (Holds t i × ¬ Removes s i))
  pub finishes : (t : T) (d : D) → c.finish t ≡ some d → (i : Item) → Stored d i ↔ Holds t i

-- What an insertion's three statements insert.
abbrev pub Inserted : ℕ → InternalRelationTuple → Item → Type 0
Inserted now t i =
    (i ≡ row t.namespace (row_of t))
    ⊎ (i ≡ change (change_of now inserted t))
    ⊎ ((l : Lookup) × In l (lookups_of t) × (i ≡ lookup l))

-- What a deletion's three statements delete.
abbrev pub Deleted : InternalRelationTuple → Item → Type 0
Deleted t i =
    (i ≡ row t.namespace (row_of t))
    ⊎ ((l : Lookup) × (i ≡ lookup l) × All (λ k. l ≡ k) (lookups_of t))

module _ {D T : Type 0} (c : Connection D T) (Stored : D → Item → Type 0)
    (Holds : T → Item → Type 0) (relational : IsRelational c Stored Holds) where
  -- A transaction that goes on has gone on before.
  pub execute-running :
      (s : Statement) (p : Progress T) (u : T)
      → execute c s p ≡ running u
      → (t : T) × (p ≡ running t) × (c.exec s t ≡ some u)
  unfolding execute
  execute-running s (stopped t) u e = cc
  execute-running s (running t) u e = (t, refl, went_on t (c.exec s t) u e)
    where
      went_on : (t : T) (o : Option T) (u : T) → executed c t o ≡ running u → o ≡ some u
      went_on t none u e = cc
      went_on t (some v) u e = cc

  pub insert_tuple-effect :
      (now : ℕ) (tuple : InternalRelationTuple) (p : Progress T) (u : T)
      → insert_tuple c now tuple p ≡ running u
      → (t : T) × (p ≡ running t) × ((i : Item) → Holds u i ↔ (Inserted now tuple i ⊎ Holds t i))
  unfolding insert_tuple
  insert_tuple-effect now tuple p u e =
      let (t2, e2, x2) = execute-running (insert_lookups (lookups_of tuple)) _ u e in
      let (t1, e1, x1) = execute-running (insert_change (change_of now inserted tuple)) _ t2 e2 in
      let (t0, e0, x0) = execute-running (insert_row tuple.namespace (row_of tuple)) p t1 e1 in
      (
        t0,
        e0,
        λ i.
            let a = relational.effect _ t0 t1 x0 i in
            let b = relational.effect _ t1 t2 x1 i in
            let c = relational.effect _ t2 u x2 i in
            (
              λ h. elim (c.0 h) [
                | inl k ↦ inl (inr (inr k))
                | inr (k, _) ↦ elim (b.0 k) [
                  | inl m ↦ inl (inr (inl m))
                  | inr (m, _) ↦ elim (a.0 m) [ inl n ↦ inl (inl n) | inr (n, _) ↦ inr n ]
                ]
              ],
              λ h. elim h [
                | inl (inl k) ↦ c.1 (inr (b.1 (inr (a.1 (inl k), λ x. x)), λ x. x))
                | inl (inr (inl k)) ↦ c.1 (inr (b.1 (inl k), λ x. x))
                | inl (inr (inr k)) ↦ c.1 (inl k)
                | inr k ↦ c.1 (inr (b.1 (inr (a.1 (inr (k, λ x. x)), λ x. x)), λ x. x))
              ],
            ),
      )

  pub delete_tuple-effect :
      (now : ℕ) (tuple : InternalRelationTuple) (p : Progress T) (u : T)
      → delete_tuple c now tuple p ≡ running u
      → (t : T) × (p ≡ running t)
        × ((i : Item)
            → Holds u i
              ↔ ((i ≡ change (change_of now deleted tuple)) ⊎ (Holds t i × ¬ Deleted tuple i)))
  unfolding delete_tuple
  delete_tuple-effect now tuple p u e =
      let (t2, e2, x2) = execute-running (insert_change (change_of now deleted tuple)) _ u e in
      let (t1, e1, x1) = execute-running (delete_lookups (lookups_of tuple)) _ t2 e2 in
      let (t0, e0, x0) = execute-running (delete_row tuple.namespace (row_of tuple)) p t1 e1 in
      (
        t0,
        e0,
        λ i.
            let a = relational.effect _ t0 t1 x0 i in
            let b = relational.effect _ t1 t2 x1 i in
            let c = relational.effect _ t2 u x2 i in
            (
              λ h. elim (c.0 h) [
                | inl k ↦ inl k
                | inr (k, _) ↦ elim (b.0 k) [
                  | inl m ↦ absurd m
                  | inr (m, not_lookup) ↦ elim (a.0 m) [
                    | inl n ↦ absurd n
                    | inr (n, not_row) ↦
                        inr (n, λ x. elim x [ inl y ↦ not_row y | inr y ↦ not_lookup y ])
                  ]
                ]
              ],
              λ h. elim h [
                | inl k ↦ c.1 (inl k)
                | inr (k, kept) ↦
                    c.1 (
                      inr (b.1 (inr (a.1 (inr (k, λ x. kept (inl x))), λ x. kept (inr x))), λ x. x))
              ],
            ),
      )
