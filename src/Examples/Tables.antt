-- ===== src/Examples/Tables.antt =====
-- A relational database whose tables are a test on rows.
use access_controller.Prelude.{
  ◌≡◌, refl, sym, subst, ◌↔◌, ◌⊎◌, inl, inr, Bool, true, false, not, ◌&&◌, ◌==◌, ◌||◌, some, List,
  [], ◌∷◌, In, All, arith,
}
use access_controller.Text.{text_eq, text_eq_iff}
use access_controller.Store.{Row}
use access_controller.Store.Transaction.{
  Lookup, Change, Statement, insert_row, insert_change, insert_lookups, delete_row, delete_lookups,
  Connection,
}
use access_controller.Store.Effects.{Item, row, change, lookup, Adds, Removes, IsRelational}

unfoldable pub row_eq : Row → Row → Bool
row_eq r s =
    text_eq r.object s.object && text_eq r.relation s.relation && text_eq r.subject s.subject

pub row_eq_iff : (r s : Row) → (row_eq r s ≡ true) ↔ (r ≡ s)
unfolding row_eq
row_eq_iff r s = ground (
  arith,
  text_eq_iff r.object s.object,
  text_eq_iff r.relation s.relation,
  text_eq_iff r.subject s.subject,
)

unfoldable pub lookup_eq : Lookup → Lookup → Bool
lookup_eq l k =
    text_eq l.namespace k.namespace
    && text_eq l.relation k.relation
    && text_eq l.relationtuple k.relationtuple

lookup_eq_iff : (l k : Lookup) → (lookup_eq l k ≡ true) ↔ (l ≡ k)
unfolding lookup_eq
lookup_eq_iff l k = ground (
  arith,
  text_eq_iff l.namespace k.namespace,
  text_eq_iff l.relation k.relation,
  text_eq_iff l.relationtuple k.relationtuple,
)

unfoldable pub change_eq : Change → Change → Bool
change_eq l k =
    text_eq l.namespace k.namespace
    && text_eq l.operation k.operation
    && text_eq l.relationtuple k.relationtuple
    && l.timestamp == k.timestamp

change_eq_iff : (l k : Change) → (change_eq l k ≡ true) ↔ (l ≡ k)
unfolding change_eq
change_eq_iff l k = ground (
  arith,
  text_eq_iff l.namespace k.namespace,
  text_eq_iff l.operation k.operation,
  text_eq_iff l.relationtuple k.relationtuple,
)

unfoldable pub some_lookup : List Lookup → Lookup → Bool
some_lookup [] l = false
some_lookup (k ∷ ks) l = lookup_eq l k || some_lookup ks l

some_lookup_iff : (ks : List Lookup) (l : Lookup) → (some_lookup ks l ≡ true) ↔ In l ks
unfolding some_lookup
some_lookup_iff [] l = (λ h. cc, λ h. absurd h)
some_lookup_iff (k ∷ ks) l = ground (arith, lookup_eq_iff l k, some_lookup_iff ks l)

unfoldable pub every_lookup : List Lookup → Lookup → Bool
every_lookup [] l = true
every_lookup (k ∷ ks) l = lookup_eq l k && every_lookup ks l

every_lookup_iff :
    (ks : List Lookup) (l : Lookup) → (every_lookup ks l ≡ true) ↔ All (λ k. l ≡ k) ks
unfolding every_lookup
every_lookup_iff [] l = (λ h. tt, λ h. refl)
every_lookup_iff (k ∷ ks) l = ground (arith, lookup_eq_iff l k, every_lookup_iff ks l)

unfoldable pub adds : Statement → Item → Bool
adds (insert_row n r) (row m s) = text_eq m n && row_eq s r
adds (insert_change c) (change d) = change_eq d c
adds (insert_lookups ls) (lookup l) = some_lookup ls l
adds _ _ = false

unfoldable pub removes : Statement → Item → Bool
removes (delete_row n r) (row m s) = text_eq m n && row_eq s r
removes (delete_lookups ls) (lookup l) = every_lookup ls l
removes _ _ = false

adds_iff : (s : Statement) (i : Item) → (adds s i ≡ true) ↔ Adds s i
unfolding adds
adds_iff (insert_row n r) (row m s) = ground (arith, text_eq_iff m n, row_eq_iff s r)
adds_iff (insert_row n r) (change d) = (λ h. cc, λ h. cc)
adds_iff (insert_row n r) (lookup l) = (λ h. cc, λ h. cc)
adds_iff (insert_change c) (row m s) = (λ h. cc, λ h. cc)
adds_iff (insert_change c) (change d) = ground (arith, change_eq_iff d c)
adds_iff (insert_change c) (lookup l) = (λ h. cc, λ h. cc)
adds_iff (insert_lookups ls) (row m s) = (λ h. cc, λ (l, k, e). cc)
adds_iff (insert_lookups ls) (change d) = (λ h. cc, λ (l, k, e). cc)
adds_iff (insert_lookups ls) (lookup l) = (
  λ h. (l, (some_lookup_iff ls l).0 h, refl),
  λ (k, m, e). let same : k ≡ l = cc in (some_lookup_iff ls l).1 (subst (λ x. In x ls) same m),
)
adds_iff (delete_row n r) i = (λ h. cc, λ h. absurd h)
adds_iff (delete_lookups ls) i = (λ h. cc, λ h. absurd h)

removes_iff : (s : Statement) (i : Item) → (removes s i ≡ true) ↔ Removes s i
unfolding removes
removes_iff (delete_row n r) (row m s) = ground (arith, text_eq_iff m n, row_eq_iff s r)
removes_iff (delete_row n r) (change d) = (λ h. cc, λ h. cc)
removes_iff (delete_row n r) (lookup l) = (λ h. cc, λ h. cc)
removes_iff (delete_lookups ls) (row m s) = (λ h. cc, λ (l, e, k). cc)
removes_iff (delete_lookups ls) (change d) = (λ h. cc, λ (l, e, k). cc)
removes_iff (delete_lookups ls) (lookup l) = (
  λ h. (l, refl, (every_lookup_iff ls l).0 h),
  λ (k, e, all).
      let same : k ≡ l = cc in
      (every_lookup_iff ls l).1 (subst (λ x. All (λ y. x ≡ y) ls) same all),
)
removes_iff (insert_row n r) i = (λ h. cc, λ h. absurd h)
removes_iff (insert_change c) i = (λ h. cc, λ h. absurd h)
removes_iff (insert_lookups ls) i = (λ h. cc, λ h. absurd h)

-- The rows of all tables.
abbrev pub Tables : Type 0
Tables = Item → Bool

unfoldable pub after : Statement → Tables → Tables
after s t i = adds s i || (t i && not (removes s i))

abbrev pub Has : Tables → Item → Type 0
Has t i = t i ≡ true

abbrev pub tables : Connection Tables Tables
tables = record { begin = some; now = λ d. 9; exec = λ s t. some (after s t); finish = some }

after_iff :
    (s : Statement) (t : Tables) (i : Item)
    → Has (after s t) i ↔ (Adds s i ⊎ (Has t i × ¬ Removes s i))
unfolding after
after_iff s t i = bits (adds s i) (t i) (removes s i) (adds_iff s i) (removes_iff s i)
  where
    bits :
        (a b c : Bool) {P Q : Type 0}
        → (a ≡ true) ↔ P
        → (c ≡ true) ↔ Q
        → (a || (b && not c) ≡ true) ↔ (P ⊎ ((b ≡ true) × ¬ Q))
    bits true b c p q = (λ h. inl (p.0 refl), λ h. refl)
    bits false true true p q =
        (λ h. cc, λ h. elim h [ inl k ↦ p.1 k | inr (k, n) ↦ absurd (n (q.0 refl)) ])
    bits false true false p q = (λ h. inr (refl, λ k. let f = q.1 k in cc), λ h. refl)
    bits false false c p q = (λ h. cc, λ h. elim h [ inl k ↦ p.1 k | inr (k, n) ↦ k ])

same_tables : (s t : Tables) → some s ≡ some t → (i : Item) → Has t i ↔ Has s i
same_tables s t e i =
    let same : s ≡ t = cc in
    (λ h. subst (λ x. Has x i) (sym same) h, λ h. subst (λ x. Has x i) same h)

pub tables-IsRelational : IsRelational tables Has Has
tables-IsRelational = record {
  begins = λ d t e. same_tables d t e;
  effect = λ s t u e i.
      let same = same_tables (after s t) u e i in
      let done = after_iff s t i in (λ h. done.0 (same.0 h), λ h. same.1 (done.1 h));
  finishes = λ t d e. same_tables t d e;
}
