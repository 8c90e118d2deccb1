-- ===== src/Map.antt =====
-- Go's `map`, as a list of pairs in the order in which one iteration meets them: a theorem for
-- every list holds for every order of iteration. Also the interface that a key type fills.
pub mod Entries
use mathlib.Core.Bool.{false≢true}
use access_controller.Prelude.{
  ◌≡◌, refl, sym, ap, ◌∙◌, ◌≢◌, ◌↔◌, inl, inr, Bool, true, false, Option, none, some, List, [], ◌∷◌,
  map, arith, if◌then◌else◌, Bool-cases, In, In-map,
}

pub record Key {ℓ} (K : Type ℓ) : Type ℓ where
  pub beq : K → K → Bool
  pub beq_iff : (a b : K) → (beq a b ≡ true) ↔ (a ≡ b)

abbrev pub Map {ℓ κ} : Type ℓ → Type κ → Type (ℓ ⊔ κ)
Map K V = List (K × V)

module _ {ℓ} {K : Type ℓ} ⦃key : Key K⦄ where
  pub beq_refl : (k : K) → key.beq k k ≡ true
  beq_refl k = (key.beq_iff k k).1 refl

  pub beq_ne : (k j : K) → k ≢ j → key.beq k j ≡ false
  beq_ne k j h = elim (Bool-cases (key.beq k j)) [
    | inl e ↦ absurd (h ((key.beq_iff k j).0 e))
    | inr e ↦ e
  ]

module _ {ℓ κ} {K : Type ℓ} {V : Type κ} ⦃key : Key K⦄ where
  -- v, ok := m[k]
  unfoldable pub get : Map K V → K → Option V
  get [] k = none
  get ((j, v) ∷ m) k = if key.beq j k then some v else get m k

  -- m[k] = v
  unfoldable pub put : Map K V → K → V → Map K V
  put [] k v = (k, v) ∷ []
  put ((j, w) ∷ m) k v = if key.beq j k then (k, v) ∷ m else (j, w) ∷ put m k v

  -- delete(m, k)
  unfoldable pub delete : Map K V → K → Map K V
  delete [] k = []
  delete ((j, w) ∷ m) k = let rest = delete m k in if key.beq j k then rest else (j, w) ∷ rest

  pub get-put :
      (m : Map K V) (k : K) (v : V) (j : K)
      → get (put m k v) j ≡ (if key.beq k j then some v else get m j)
  unfolding get put
  get-put [] k v j = refl
  get-put ((i, w) ∷ m) k v j =
      ground (arith, get-put m k v j, key.beq_iff i k, key.beq_iff i j, key.beq_iff k j)

  pub get-delete :
      (m : Map K V) (k j : K) → get (delete m k) j ≡ (if key.beq k j then none else get m j)
  unfolding get delete
  get-delete [] k j = ground arith
  get-delete ((i, w) ∷ m) k j =
      ground (arith, get-delete m k j, key.beq_iff i k, key.beq_iff i j, key.beq_iff k j)

-- Each key occurs once, as in every map that a program builds.
module _ {K V : Type 0} where
  abbrev pub keys : Map K V → List K
  keys = map (λ e. e.0)

  abbrev pub IsFresh : K → Map K V → Type 0
  IsFresh k m = ¬ (In k (keys m))

  pub data HasUniqueKeys : Map K V → Type 0 where
    empty : HasUniqueKeys []
    entry :
        {k : K} {v : V} {m : Map K V} → IsFresh k m → HasUniqueKeys m → HasUniqueKeys ((k, v) ∷ m)

module _ {K V : Type 0} ⦃key : Key K⦄ where
  pub In-of_get : (m : Map K V) (k : K) (v : V) → get m k ≡ some v → In (k, v) m
  unfolding get
  In-of_get [] k v h = cc
  In-of_get ((j, w) ∷ m) k v h = elim (Bool-cases (key.beq j k)) [
    | inl e ↦ inl (let p = (key.beq_iff j k).0 e in let q : some w ≡ some v = rw e at h in cc)
    | inr e ↦ inr (In-of_get m k v (rw e at h))
  ]

  pub get_of_In : (m : Map K V) (k : K) (v : V) → HasUniqueKeys m → In (k, v) m → get m k ≡ some v
  unfolding get
  get_of_In [] k v u h = absurd h
  get_of_In ((j, w) ∷ m) k v (entry f u) (inl e) =
      rw ((key.beq_iff j k).1 (sym (ap (λ p. p.0) e))) (ap (λ p. some p.1) (sym e))
  get_of_In ((j, w) ∷ m) k v (entry f u) (inr h) =
      rw (beq_ne j k (λ e. f (rw e (In-map (λ p. p.0) (k, v) m h)))) (get_of_In m k v u h)

  -- A key that occurs has a value.
  pub get_of_key : (m : Map K V) (k : K) → In k (keys m) → (v : V) × (get m k ≡ some v)
  unfolding get
  get_of_key [] k h = absurd h
  get_of_key ((j, w) ∷ m) k h = elim (Bool-cases (key.beq j k)) [
    | inl e ↦ (w, rw e)
    | inr e ↦ rw e (elim h [
      | inl p ↦ absurd (false≢true (sym e ∙ (key.beq_iff j k).1 (sym p)))
      | inr q ↦ get_of_key m k q
    ])
  ]
