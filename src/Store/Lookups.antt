-- ===== src/Store/Lookups.antt =====
-- What a committed transaction leaves in the table "namespace-relation-lookup", from which WriteConfig
-- learns whether a relation is in use.
use access_controller.Prelude.{
  ℕ, ◌≡◌, refl, sym, ◌∙◌, subst, ap, ◌↔◌, ◌⊎◌, inl, inr, some, List, [], In, All, All-In,
}
use access_controller.Text.{Text}
use access_controller.Tuple.{InternalRelationTuple}
use access_controller.Store.Transaction.{
  subject_lookups, Lookup, Connection, lookups_of, transact_relation_tuples,
}
use access_controller.Store.Effects.{Item, lookup, IsRelational, Inserted, Deleted}
use access_controller.Tuple.{SubjectSet, Subject, subject_id, subject_set}
use access_controller.Store.Committed.{Some, kept_effect}
use access_controller.Store.Tables.{Some-map}

Inserted-lookup :
    (now : ℕ) (l : Lookup) (t : InternalRelationTuple)
    → Inserted now t (lookup l) ↔ In l (lookups_of t)
Inserted-lookup now l t = (
  λ h. elim h [
    | inl e ↦ cc
    | inr (inl e) ↦ cc
    | inr (inr (k, m, e)) ↦ let same : k ≡ l = cc in subst (λ x. In x (lookups_of t)) same m
  ],
  λ m. inr (inr (l, m, refl)),
)

Deleted-lookup :
    (l : Lookup) (t : InternalRelationTuple)
    → Deleted t (lookup l) ↔ All (λ k. l ≡ k) (lookups_of t)
Deleted-lookup l t = (
  λ h. elim h [
    | inl e ↦ cc
    | inr (k, e, all) ↦
        let same : k ≡ l = cc in subst (λ x. All (λ y. x ≡ y) (lookups_of t)) same all
  ],
  λ all. inr (l, refl, all),
)

-- After a transaction that is committed on a relational database, the lookup table has the rows of
-- the inserted tuples beside those that it had, without the rows that are every one of the lookup
-- rows of some deleted tuple.
pub transact_relation_tuples-lookups :
    {D T : Type 0} (c : Connection D T) (Stored : D → Item → Type 0) (Holds : T → Item → Type 0)
    (d e : D) (ins del : List InternalRelationTuple) (l : Lookup)
    → IsRelational c Stored Holds
    → transact_relation_tuples c d ins del ≡ some e
    → Stored e (lookup l) ↔ (
        (Some (λ t. In l (lookups_of t)) ins ⊎ Stored d (lookup l))
        × ¬ Some (λ t. All (λ k. l ≡ k) (lookups_of t)) del)
unfolding transact_relation_tuples
transact_relation_tuples-lookups c Stored Holds d e ins del l relational h =
    let all =
      kept_effect c Stored Holds relational (c.now d) (lookup l) (λ x. cc) d e ins del (c.begin d)
        refl h in
    (
      λ k.
          let (a, b) = all.0 k in
          (
            elim a [
              | inl x ↦ inl (Some-map ins (λ t. (Inserted-lookup (c.now d) l t).0) x)
              | inr x ↦ inr x
            ],
            λ x. b (Some-map del (λ t. (Deleted-lookup l t).1) x),
          ),
      λ (a, b). all.1 (
        elim a [
          | inl x ↦ inl (Some-map ins (λ t. (Inserted-lookup (c.now d) l t).1) x)
          | inr x ↦ inr x
        ],
        λ x. b (Some-map del (λ t. (Deleted-lookup l t).0) x),
      ),
    )

-- The subject is a set of another relation than the tuple's own.
abbrev pub RefersElsewhere : InternalRelationTuple → Type 0
RefersElsewhere t =
    (s : SubjectSet) × (t.subject ≡ subject_set s)
    × ¬ ((s.namespace ≡ t.namespace) × (s.relation ≡ t.relation))

set_lookup :
    (l : Lookup) (u : Subject) (s : SubjectSet) (text : Text)
    → u ≡ subject_set s
    → All (λ k. l ≡ k) (subject_lookups u text)
    → (l.namespace ≡ s.namespace) × (l.relation ≡ s.relation)
set_lookup l (subject_id id) s text e all = cc
set_lookup l (subject_set v) s text e all =
    let same : v ≡ s = cc in
    let own = all.0 in
    (
      ap (λ (k : Lookup). k.namespace) own ∙ ap (λ (x : SubjectSet). x.namespace) same,
      ap (λ (k : Lookup). k.relation) own ∙ ap (λ (x : SubjectSet). x.relation) same,
    )

no_common :
    (t : InternalRelationTuple) (l : Lookup) → RefersElsewhere t → ¬ All (λ k. l ≡ k) (lookups_of t)
no_common t l (s, e, other) all =
    let (n, r) = set_lookup l t.subject s _ e all.1 in
    other (
      sym n ∙ ap (λ (k : Lookup). k.namespace) all.0,
      sym r ∙ ap (λ (k : Lookup). k.relation) all.0,
    )

-- A transaction that deletes only tuples whose subjects are sets of other relations, and inserts
-- nothing, leaves every row in the lookup table, those of the deleted tuples too: the relations that
-- they referred to stay in use.
pub transact_relation_tuples-stays :
    {D T : Type 0} (c : Connection D T) (Stored : D → Item → Type 0) (Holds : T → Item → Type 0)
    (d e : D) (del : List InternalRelationTuple) (l : Lookup)
    → IsRelational c Stored Holds
    → All RefersElsewhere del
    → transact_relation_tuples c d [] del ≡ some e
    → Stored e (lookup l) ↔ Stored d (lookup l)
transact_relation_tuples-stays c Stored Holds d e del l relational elsewhere h =
    let all = transact_relation_tuples-lookups c Stored Holds d e [] del l relational h in
    (
      λ k. elim (all.0 k).0 [ inl (t, m, i) ↦ absurd m | inr x ↦ x ],
      λ k. all.1 (inr k, λ (t, m, n). no_common t l (All-In RefersElsewhere t del elsewhere m) n),
    )
