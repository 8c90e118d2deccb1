-- ===== src/Store/Committed.antt =====
-- What the loops of a transaction do to one row of a table, and the commit.
use access_controller.Prelude.{
  ℕ, ◌≡◌, refl, sym, subst, ap, ◌≢◌, ◌↔◌, ◌⊎◌, inl, inr, Option, none, some, List, [], ◌∷◌, In,
}
use access_controller.Tuple.{InternalRelationTuple}
use access_controller.Store.Transaction.{
  Change, Connection, change_of, deleted, Progress, running, stopped, insert_tuple, delete_tuple,
  insert_all, delete_all, commit, in_transaction,
}
use access_controller.Store.Effects.{
  Item, change, IsRelational, Inserted, Deleted, insert_tuple-effect, delete_tuple-effect,
}

-- One of the tuples has the property.
abbrev pub Some : (InternalRelationTuple → Type 0) → List InternalRelationTuple → Type 0
Some P ts = (t : InternalRelationTuple) × In t ts × P t

module _ {D T : Type 0} (c : Connection D T) (Stored : D → Item → Type 0)
    (Holds : T → Item → Type 0) (relational : IsRelational c Stored Holds) (now : ℕ) where
  insert_all-effect :
      (ts : List InternalRelationTuple) (p : Progress T) (u : T)
      → insert_all c now ts p ≡ running u
      → (t : T) × (p ≡ running t)
        × ((i : Item) → Holds u i ↔ (Some (λ x. Inserted now x i) ts ⊎ Holds t i))
  unfolding insert_all
  insert_all-effect [] p u e =
      (u, e, λ i. (λ h. inr h, λ h. elim h [ inl (t, m, k) ↦ absurd m | inr k ↦ k ]))
  insert_all-effect (x ∷ ts) p u e =
      let (t, e1, after) = insert_all-effect ts (insert_tuple c now x p) u e in
      let (t0, e0, own) = insert_tuple-effect c Stored Holds relational now x p t e1 in
      (
        t0,
        e0,
        λ i. (
          λ h. elim ((after i).0 h) [
            | inl (y, m, k) ↦ inl (y, inr m, k)
            | inr k ↦ elim ((own i).0 k) [ inl n ↦ inl (x, inl refl, n) | inr n ↦ inr n ]
          ],
          λ h. elim h [
            | inl (y, inl m, k) ↦
                (after i).1 (inr ((own i).1 (inl (subst (λ z. Inserted now z i) m k))))
            | inl (y, inr m, k) ↦ (after i).1 (inl (y, m, k))
            | inr k ↦ (after i).1 (inr ((own i).1 (inr k)))
          ],
        ),
      )

  -- Deletions add to the changelog and to nothing else.
  delete_all-effect :
      (i : Item)
      → ((x : Change) → i ≢ change x)
      → (ts : List InternalRelationTuple) (p : Progress T) (u : T)
      → delete_all c now ts p ≡ running u
      → (t : T) × (p ≡ running t) × (Holds u i ↔ (Holds t i × ¬ Some (λ x. Deleted x i) ts))
  unfolding delete_all
  delete_all-effect i other [] p u e = (u, e, (λ h. (h, λ (t, m, k). absurd m), λ h. h.0))
  delete_all-effect i other (x ∷ ts) p u e =
      let (t, e1, after) = delete_all-effect i other ts (delete_tuple c now x p) u e in
      let (t0, e0, own) = delete_tuple-effect c Stored Holds relational now x p t e1 in
      (
        t0,
        e0,
        (
          λ h.
              let (k, rest) = after.0 h in
              elim ((own i).0 k) [
                | inl n ↦ absurd (other _ n)
                | inr (n, kept) ↦ (
                  n,
                  λ (y, m, d). elim m [
                    | inl same ↦ kept (subst (λ z. Deleted z i) same d)
                    | inr m' ↦ rest (y, m', d)
                  ],
                )
              ],
          λ (k, kept).
              after.1
                ((own i).1 (inr (k, λ d. kept (x, inl refl, d))), λ (y, m, d). kept (y, inr m, d)),
        ),
      )

  delete_all-change :
      (x : Change) (ts : List InternalRelationTuple) (p : Progress T) (u : T)
      → delete_all c now ts p ≡ running u
      → (t : T) × (p ≡ running t)
        × (Holds u (change x) ↔ (Some (λ y. x ≡ change_of now deleted y) ts ⊎ Holds t (change x)))
  unfolding delete_all
  delete_all-change x [] p u e =
      (u, e, (λ h. inr h, λ h. elim h [ inl (t, m, k) ↦ absurd m | inr k ↦ k ]))
  delete_all-change x (y ∷ ts) p u e =
      let (t, e1, after) = delete_all-change x ts (delete_tuple c now y p) u e in
      let (t0, e0, own) = delete_tuple-effect c Stored Holds relational now y p t e1 in
      (
        t0,
        e0,
        (
          λ h. elim (after.0 h) [
            | inl (z, m, k) ↦ inl (z, inr m, k)
            | inr k ↦ elim ((own (change x)).0 k) [
              | inl n ↦ inl (y, inl refl, cc)
              | inr (n, kept) ↦ inr n
            ]
          ],
          λ h. elim h [
            | inl (z, inl m, k) ↦ after.1 (inr ((own (change x)).1 (inl (ap change (rw (← m) k)))))
            | inl (z, inr m, k) ↦ after.1 (inl (z, m, k))
            | inr k ↦ after.1 (
                inr
                  ((own (change x)).1 (inr (k, λ d. elim d [ inl n ↦ cc | inr (l, n, all) ↦ cc ]))))
          ],
        ),
      )

  commit-running :
      (p : Progress T) (d : D)
      → commit c p ≡ some d
      → (t : T) × (p ≡ running t) × (c.finish t ≡ some d)
  commit-running (stopped t) d e = cc
  commit-running (running t) d e = (t, refl, e)

  pub kept_effect :
      (i : Item)
      → ((x : Change) → i ≢ change x)
      → (d e : D) (ins del : List InternalRelationTuple) (o : Option T) → c.begin d ≡ o
      → in_transaction c now o ins del ≡ some e
      → Stored e i
        ↔ ((Some (λ x. Inserted now x i) ins ⊎ Stored d i) × ¬ Some (λ x. Deleted x i) del)
  kept_effect i other d e ins del none b h = cc
  kept_effect i other d e ins del (some s) b h =
      let (u, e1, finished) = commit-running _ e h in
      let (t, e2, gone) = delete_all-effect i other del _ u e1 in
      let (s', e3, added) = insert_all-effect ins (running s) t e2 in
      let one : s' ≡ s = cc in
      let opened = relational.begins d s b i in
      let closed = relational.finishes u e finished i in
      (
        λ k.
            let (m, n) = gone.0 (closed.0 k) in
            (
              elim ((added i).0 m) [
                | inl a ↦ inl a
                | inr a ↦ inr (opened.0 (subst (λ x. Holds x i) one a))
              ],
              n,
            ),
        λ (k, n). closed.1 (
            gone.1 (
              elim k [
                | inl a ↦ (added i).1 (inl a)
                | inr a ↦ (added i).1 (inr (subst (λ x. Holds x i) (sym one) (opened.1 a)))
              ],
              n,
            )),
      )

  pub change_effect :
      (x : Change) (d e : D) (ins del : List InternalRelationTuple) (o : Option T)
      → c.begin d ≡ o
      → in_transaction c now o ins del ≡ some e
      → Stored e (change x) ↔ (
          Some (λ y. x ≡ change_of now deleted y) del
          ⊎ Some (λ y. Inserted now y (change x)) ins
          ⊎ Stored d (change x))
  change_effect x d e ins del none b h = cc
  change_effect x d e ins del (some s) b h =
      let (u, e1, finished) = commit-running _ e h in
      let (t, e2, gone) = delete_all-change x del _ u e1 in
      let (s', e3, added) = insert_all-effect ins (running s) t e2 in
      let one : s' ≡ s = cc in
      let opened = relational.begins d s b (change x) in
      let closed = relational.finishes u e finished (change x) in
      (
        λ k. elim (gone.0 (closed.0 k)) [
          | inl a ↦ inl a
          | inr a ↦ elim ((added (change x)).0 a) [
            | inl m ↦ inr (inl m)
            | inr m ↦ inr (inr (opened.0 (subst (λ y. Holds y (change x)) one m)))
          ]
        ],
        λ k. elim k [
          | inl a ↦ closed.1 (gone.1 (inl a))
          | inr (inl a) ↦ closed.1 (gone.1 (inr ((added (change x)).1 (inl a))))
          | inr (inr a) ↦ closed.1 (
              gone.1 (
                inr (
                  (added (change x)).1
                    (inr (subst (λ y. Holds y (change x)) (sym one) (opened.1 a))))))
        ],
      )
