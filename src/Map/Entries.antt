-- ===== src/Map/Entries.antt =====
-- How the updates of a map act on its keys and on a predicate of its entries.
use mathlib.Core.Bool.{false≢true}
use access_controller.Prelude.{
  ◌≡◌, refl, sym, ◌∙◌, ◌⊎◌, inl, inr, some, [], ◌∷◌, arith, Bool-cases, In, All, All-In,
}
use access_controller.Map.{Map, Key, get, put, delete, keys, HasUniqueKeys, empty, entry, In-of_get}

module _ {K V : Type 0} ⦃key : Key K⦄ where
  pub keys-put :
      (m : Map K V) (k : K) (v : V) (x : K) → In x (keys (put m k v)) → (x ≡ k) ⊎ In x (keys m)
  unfolding put
  keys-put [] k v x h = h
  keys-put ((j, w) ∷ m) k v x h = ground (arith, key.beq_iff j k, keys-put m k v x)

  pub put-keys_old : (m : Map K V) (k : K) (v : V) (x : K) → In x (keys m) → In x (keys (put m k v))
  unfolding put
  put-keys_old [] k v x h = absurd h
  put-keys_old ((j, w) ∷ m) k v x h = ground (arith, key.beq_iff j k, put-keys_old m k v x)

  pub put-keys_new : (m : Map K V) (k : K) (v : V) → In k (keys (put m k v))
  unfolding put
  put-keys_new [] k v = inl refl
  put-keys_new ((j, w) ∷ m) k v = ground (arith, key.beq_iff j k, put-keys_new m k v)

  pub keys-delete : (m : Map K V) (k x : K) → In x (keys (delete m k)) → In x (keys m)
  unfolding delete
  keys-delete [] k x h = h
  keys-delete ((j, w) ∷ m) k x h = ground (arith, keys-delete m k x)

  pub put-HasUniqueKeys :
      (m : Map K V) (k : K) (v : V) → HasUniqueKeys m → HasUniqueKeys (put m k v)
  unfolding put
  put-HasUniqueKeys [] k v u = entry (λ h. h) empty
  put-HasUniqueKeys ((j, w) ∷ m) k v (entry f u) = elim (Bool-cases (key.beq j k)) [
    | inl e ↦ rw e (entry (rw (← (key.beq_iff j k).0 e) f) u)
    | inr e ↦ rw e (
        entry
          (λ h. elim (keys-put m k v j h) [
            | inl p ↦ false≢true (sym e ∙ (key.beq_iff j k).1 p)
            | inr q ↦ f q
          ])
          (put-HasUniqueKeys m k v u))
  ]

  pub delete-HasUniqueKeys : (m : Map K V) (k : K) → HasUniqueKeys m → HasUniqueKeys (delete m k)
  unfolding delete
  delete-HasUniqueKeys [] k u = empty
  delete-HasUniqueKeys ((j, w) ∷ m) k (entry f u) = elim (Bool-cases (key.beq j k)) [
    | inl e ↦ rw e (delete-HasUniqueKeys m k u)
    | inr e ↦ rw e (entry (λ h. f (keys-delete m k j h)) (delete-HasUniqueKeys m k u))
  ]

  pub All-put :
      (P : K × V → Type 0) (m : Map K V) (k : K) (v : V) → All P m → P (k, v) → All P (put m k v)
  unfolding put
  All-put P [] k v h p = (p, tt)
  All-put P ((j, w) ∷ m) k v h p = elim (Bool-cases (key.beq j k)) [
    | inl e ↦ rw e (p, h.1)
    | inr e ↦ rw e (h.0, All-put P m k v h.1 p)
  ]

  pub All-delete : (P : K × V → Type 0) (m : Map K V) (k : K) → All P m → All P (delete m k)
  unfolding delete
  All-delete P [] k h = tt
  All-delete P ((j, w) ∷ m) k h = elim (Bool-cases (key.beq j k)) [
    | inl e ↦ rw e (All-delete P m k h.1)
    | inr e ↦ rw e (h.0, All-delete P m k h.1)
  ]

  pub All-get :
      (P : K × V → Type 0) (m : Map K V) (k : K) (v : V) → All P m → get m k ≡ some v → P (k, v)
  All-get P m k v h e = All-In P (k, v) m h (In-of_get m k v e)

pub All-keys : {K V : Type 0} (P : K → Type 0) (m : Map K V) → All (λ e. P e.0) m → All P (keys m)
All-keys P [] h = tt
All-keys P (e ∷ m) h = (h.0, All-keys P m h.1)
