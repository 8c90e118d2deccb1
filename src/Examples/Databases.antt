-- ===== src/Examples/Databases.antt =====
-- A database that answers the queries of the store from lists of rows.
use access_controller.Prelude.{
  ℕ, suc, ◌≡◌, refl, sym, subst, ◌↔◌, inl, inr, Bool, true, false, ◌&&◌, ◌||◌, ◌==◌, Option, none,
  some, List, [], ◌∷◌, map, length, In, In-map, In-map_cases, arith, Bool-cases, if◌then◌else◌,
}
use access_controller.Text.{Text, text_eq, text_eq_iff}
use access_controller.Store.{
  SubjectFilter, any_subject, subject_is, subject_like, Selection, Row, Database,
}
use access_controller.Store.Rows.{
  Like, end, any_one, skip, take, same, Fits, Equals, Among, Matches, Answers,
}

unfoldable pub like : Text → Text → Bool
like [] [] = true
like [] (c ∷ s) = false
like (p ∷ ps) [] = p == b'%' && like ps []
like (p ∷ ps) (c ∷ s) =
    let rest = like ps s in
    let here = like ps (c ∷ s) in
    let behind = like (p ∷ ps) s in
    if p == b'%' then here || behind else if p == b'_' then rest else p == c && rest

like_all : (p s : Text) → Like p s → like p s ≡ true
unfolding like
like_all [] _ end = refl
like_all _ (c ∷ s) (any_one {p} h) = like_all p s h
like_all _ [] (skip {p} h) = like_all p [] h
like_all _ (c ∷ s) (skip {p} h) = ground (arith, like_all p (c ∷ s) h)
like_all _ (c ∷ s) (take {p} h) = ground (arith, like_all (b'%' ∷ p) s h)
like_all _ (c ∷ s) (same {p} u v h) = ground (arith, like_all p s h)

eq_of : (a b : ℕ) → (a == b) ≡ true → a ≡ b
eq_of a b h = ground arith

pub like_sound : (p s : Text) → like p s ≡ true → Like p s
unfolding like
like_sound [] [] h = end
like_sound [] (c ∷ s) h = cc
like_sound (p ∷ ps) [] h =
    let percent : p ≡ b'%' = ground arith in
    let rest : like ps [] ≡ true = ground arith in
    subst (λ x. Like (x ∷ ps) []) (sym percent) (skip (like_sound ps [] rest))
like_sound (p ∷ ps) (c ∷ s) h = elim (Bool-cases (p == b'%')) [
  | inl e ↦
      subst (λ x. Like (x ∷ ps) (c ∷ s)) (sym (eq_of p b'%' e))
        (elim (Bool-cases (like ps (c ∷ s))) [
          | inl k ↦ skip (like_sound ps (c ∷ s) k)
          | inr k ↦
              take (
                subst (λ x. Like (x ∷ ps) s) (eq_of p b'%' e)
                  (like_sound (p ∷ ps) s (ground arith)))
        ])
  | inr n ↦ elim (Bool-cases (p == b'_')) [
    | inl e ↦
        subst (λ x. Like (x ∷ ps) (c ∷ s)) (sym (eq_of p b'_' e))
          (any_one (like_sound ps s (ground arith)))
    | inr m ↦
        let one : p ≡ c = ground arith in
        subst (λ x. Like (x ∷ ps) (c ∷ s)) (sym one)
          (same (ground arith) (ground arith) (like_sound ps s (ground arith)))
  ]
]

unfoldable pub fits : SubjectFilter → Text → Bool
fits any_subject s = true
fits (subject_is t) s = text_eq s t
fits (subject_like p) s = like p s

fits_iff : (f : SubjectFilter) (s : Text) → (fits f s ≡ true) ↔ Fits f s
unfolding fits
fits_iff any_subject s = (λ h. tt, λ h. refl)
fits_iff (subject_is t) s = text_eq_iff s t
fits_iff (subject_like p) s = (like_sound p s, like_all p s)

unfoldable pub equals : Option Text → Text → Bool
equals none s = true
equals (some t) s = text_eq s t

equals_iff : (o : Option Text) (s : Text) → (equals o s ≡ true) ↔ Equals o s
unfolding equals
equals_iff none s = (λ h. tt, λ h. refl)
equals_iff (some t) s = text_eq_iff s t

unfoldable pub some_text : List Text → Text → Bool
some_text [] s = false
some_text (t ∷ ts) s = text_eq s t || some_text ts s

some_text_iff : (ts : List Text) (s : Text) → (some_text ts s ≡ true) ↔ In s ts
unfolding some_text
some_text_iff [] s = (λ h. cc, λ h. absurd h)
some_text_iff (t ∷ ts) s = ground (arith, text_eq_iff s t, some_text_iff ts s)

unfoldable pub among : Option (List Text) → Text → Bool
among none s = true
among (some ts) s = some_text ts s

among_iff : (o : Option (List Text)) (s : Text) → (among o s ≡ true) ↔ Among o s
unfolding among
among_iff none s = (λ h. tt, λ h. refl)
among_iff (some ts) s = some_text_iff ts s

unfoldable pub matches : Selection → Row → Bool
matches q r = equals q.object r.object && among q.relations r.relation && fits q.subject r.subject

matches_iff : (q : Selection) (r : Row) → (matches q r ≡ true) ↔ Matches q r
unfolding matches
matches_iff q r = (
  λ h. (
    (equals_iff q.object r.object).0 (ground arith),
    (among_iff q.relations r.relation).0 (ground arith),
    (fits_iff q.subject r.subject).0 (ground arith),
  ),
  λ (o, m, f).
      let a = (equals_iff q.object r.object).1 o in
      let b = (among_iff q.relations r.relation).1 m in
      let c = (fits_iff q.subject r.subject).1 f in rw (a, b, c) refl,
)

-- The rows that meet the conditions.
unfoldable pub where_rows : Selection → List Row → List Row
where_rows q [] = []
where_rows q (r ∷ rs) = let rest = where_rows q rs in if matches q r then r ∷ rest else rest

where_rows_iff :
    (q : Selection) (rs : List Row) (r : Row) → In r (where_rows q rs) ↔ (In r rs × Matches q r)
unfolding where_rows
where_rows_iff q [] r = (λ h. absurd h, λ h. absurd h.0)
where_rows_iff q (x ∷ rs) r =
    let rest = where_rows_iff q rs r in
    elim (Bool-cases (matches q x)) [
      | inl b ↦ rw b (
        λ h. elim h [
          | inl e ↦ (inl e, subst (Matches q) (sym e) ((matches_iff q x).0 b))
          | inr m ↦ let (i, k) = rest.0 m in (inr i, k)
        ],
        λ (i, k). elim i [ inl e ↦ inl e | inr m ↦ inr (rest.1 (m, k)) ],
      )
      | inr b ↦ rw b (
        λ h. let (i, k) = rest.0 h in (inr i, k),
        λ (i, k). elim i [
          | inl e ↦ let yes_here = (matches_iff q x).1 (subst (Matches q) e k) in cc
          | inr m ↦ rest.1 (m, k)
        ],
      )
    ]

module _ (rows : Text → List Row) where
  abbrev pub database : Database
  database = record {
    select_rows = λ q. some (map some (where_rows q (rows q.table)));
    select_subjects =
        λ q. some (map some (map (λ (r : Row). r.subject) (where_rows q (rows q.table))));
    select_count = λ q. some (length (where_rows q (rows q.table)));
  }

  some_row :
      (rs : List Row)
      → ((n : ℕ) × (◌≡◌ {A = Option ℕ} (some (length rs)) (some (suc n)))) ↔ ((r : Row) × In r rs)
  some_row [] = (λ (n, e). absurd (ground arith), λ (r, m). absurd m)
  some_row (r ∷ rs) = (λ h. (r, inl refl), λ h. (length rs, refl))

  pub database-Answers : Answers database rows
  database-Answers = record {
    all_rows = λ q. (where_rows q (rows q.table), refl, where_rows_iff q (rows q.table));
    all_subjects = λ q. (
      map (λ (r : Row). r.subject) (where_rows q (rows q.table)),
      refl,
      λ s. (
        λ m.
            let (r, i, e) = In-map_cases _ s (where_rows q (rows q.table)) m in
            let (j, k) = (where_rows_iff q (rows q.table) r).0 i in (r, j, k, sym e),
        λ (r, j, k, e).
            subst (λ x. In x (map (λ (y : Row). y.subject) (where_rows q (rows q.table)))) e
              (In-map _ r _ ((where_rows_iff q (rows q.table) r).1 (j, k))),
      ),
    );
    number = λ q.
        let some_one = some_row (where_rows q (rows q.table)) in
        (
          λ h.
              let (r, i) = some_one.0 h in
              let (j, k) = (where_rows_iff q (rows q.table) r).0 i in (r, j, k),
          λ (r, j, k). some_one.1 (r, (where_rows_iff q (rows q.table) r).1 (j, k)),
        );
  }
