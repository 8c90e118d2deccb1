-- ===== src/Hashring/Sorted.antt =====
-- Sorting: the members of a list, and one list for each set of members.
use access_controller.Prelude.{
  ◌≡◌, refl, sym, subst, ◌↔◌, ◌⊎◌, inl, inr, true, false, List, [], ◌∷◌, In, All, All-In, All-of_In,
  Bool-cases, arith,
}
use access_controller.Text.{Text}
use access_controller.Hashring.{text_lt, insert, sort, Distinct}

text_lt_irrefl : (s : Text) → text_lt s s ≡ false
unfolding text_lt
text_lt_irrefl [] = refl
text_lt_irrefl (x ∷ s) = ground (arith, text_lt_irrefl s)

text_lt_trans : (s t u : Text) → text_lt s t ≡ true → text_lt t u ≡ true → text_lt s u ≡ true
unfolding text_lt
text_lt_trans [] [] u h k = cc
text_lt_trans [] (y ∷ t) [] h k = cc
text_lt_trans [] (y ∷ t) (z ∷ u) h k = refl
text_lt_trans (x ∷ s) [] u h k = cc
text_lt_trans (x ∷ s) (y ∷ t) [] h k = cc
text_lt_trans (x ∷ s) (y ∷ t) (z ∷ u) h k = ground (arith, text_lt_trans s t u)

text_lt_total : (s t : Text) → text_lt s t ≡ false → (s ≡ t) ⊎ (text_lt t s ≡ true)
unfolding text_lt
text_lt_total [] [] h = inl refl
text_lt_total [] (y ∷ t) h = cc
text_lt_total (x ∷ s) [] h = inr refl
text_lt_total (x ∷ s) (y ∷ t) h = ground (arith, text_lt_total s t)

insert-In : (x : Text) (ys : List Text) (z : Text) → In z (insert x ys) ↔ ((z ≡ x) ⊎ In z ys)
unfolding insert
insert-In x [] z = (λ h. h, λ h. h)
insert-In x (y ∷ ys) z = elim (Bool-cases (text_lt y x)) [
  | inl b ↦ rw b (
    λ h. elim h [
      | inl e ↦ inr (inl e)
      | inr m ↦ elim ((insert-In x ys z).0 m) [ inl e ↦ inl e | inr k ↦ inr (inr k) ]
    ],
    λ h. elim h [
      | inl e ↦ inr ((insert-In x ys z).1 (inl e))
      | inr (inl e) ↦ inl e
      | inr (inr m) ↦ inr ((insert-In x ys z).1 (inr m))
    ],
  )
  | inr b ↦ rw b (λ h. h, λ h. h)
]

pub sort-In : (xs : List Text) (z : Text) → In z (sort xs) ↔ In z xs
unfolding sort
sort-In [] z = (λ h. h, λ h. h)
sort-In (x ∷ xs) z = (
  λ h. elim ((insert-In x (sort xs) z).0 h) [ inl e ↦ inl e | inr m ↦ inr ((sort-In xs z).0 m) ],
  λ h. elim h [
    | inl e ↦ (insert-In x (sort xs) z).1 (inl e)
    | inr m ↦ (insert-In x (sort xs) z).1 (inr ((sort-In xs z).1 m))
  ],
)

-- Each element is less than those behind it.
abbrev pub IsSorted : List Text → Type 0
IsSorted [] = Unit
IsSorted (x ∷ xs) = All (λ z. text_lt x z ≡ true) xs × IsSorted xs

insert-IsSorted : (x : Text) (ys : List Text) → ¬ In x ys → IsSorted ys → IsSorted (insert x ys)
unfolding insert
insert-IsSorted x [] new s = (tt, tt)
insert-IsSorted x (y ∷ ys) new (below, s) = elim (Bool-cases (text_lt y x)) [
  | inl b ↦ rw b (
    All-of_In _ _
        (λ z m. elim ((insert-In x ys z).0 m) [ inl e ↦ rw e b | inr k ↦ All-In _ z ys below k ]),
    insert-IsSorted x ys (λ m. new (inr m)) s,
  )
  | inr b ↦ elim (text_lt_total y x b) [
    | inl e ↦ absurd (new (inl (sym e)))
    | inr less ↦ rw b (
      (less, All-of_In _ _ (λ z m. text_lt_trans x y z less (All-In _ z ys below m))),
      (below, s),
    )
  ]
]

pub sort-IsSorted : (xs : List Text) → Distinct xs → IsSorted (sort xs)
unfolding sort
sort-IsSorted [] d = tt
sort-IsSorted (x ∷ xs) (new, d) =
    insert-IsSorted x (sort xs) (λ m. new ((sort-In xs x).0 m)) (sort-IsSorted xs d)

not_below : (x : Text) (xs : List Text) → All (λ z. text_lt x z ≡ true) xs → ¬ In x xs
not_below x xs below m = let less = All-In _ x xs below m in cc (text_lt_irrefl x)

-- The elements behind equal heads are the same.
tails :
    (x : Text) (xs ys : List Text)
    → All (λ z. text_lt x z ≡ true) xs
    → ((z : Text) → In z (x ∷ xs) → In z (x ∷ ys))
    → (z : Text) → In z xs
    → In z ys
tails x xs ys below same z m = elim (same z (inr m)) [
  | inl e ↦ absurd (not_below x xs below (subst (λ w. In w xs) e m))
  | inr k ↦ k
]

-- Two sorted lists of the same elements are one list.
pub IsSorted-unique :
    (xs ys : List Text) → IsSorted xs → IsSorted ys → ((z : Text) → In z xs ↔ In z ys) → xs ≡ ys
IsSorted-unique [] [] s t same = refl
IsSorted-unique [] (y ∷ ys) s t same = absurd ((same y).1 (inl refl))
IsSorted-unique (x ∷ xs) [] s t same = absurd ((same x).0 (inl refl))
IsSorted-unique (x ∷ xs) (y ∷ ys) (below, s) (above, t) same =
    let heads : x ≡ y = elim ((same x).0 (inl refl)) [
      | inl e ↦ e
      | inr m ↦ elim ((same y).1 (inl refl)) [
        | inl e ↦ sym e
        | inr k ↦
            let one = text_lt_trans x y x (All-In _ y xs below k) (All-In _ x ys above m) in
            cc (text_lt_irrefl x)
      ]
    ] in
    let below' = subst (λ w. All (λ z. text_lt w z ≡ true) xs) heads below in
    let same' : (z : Text) → In z (y ∷ xs) ↔ In z (y ∷ ys) =
      subst (λ w. (z : Text) → In z (w ∷ xs) ↔ In z (y ∷ ys)) heads same in
    let rest = IsSorted-unique xs ys s t (λ z.
      (tails y xs ys below' (λ w. (same' w).0) z, tails y ys xs above (λ w. (same' w).1) z)) in
    cc
