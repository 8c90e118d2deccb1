-- ===== src/Examples/Hashrings.antt =====
-- Two views of a ring.
use access_controller.Prelude.{ℕ, ◌+◌, ◌*◌, ◌≡◌, refl, ◌↔◌, inl, inr, List, [], ◌∷◌, In}
use access_controller.Map.{Map, keys, HasUniqueKeys, empty, entry}
use access_controller.Text.{Text, bytes}
use access_controller.Examples.Clusters.{newest_first}
use access_controller.Hashring.{Distinct, Range, checksum, sort, insert, text_lt}
use access_controller.Hashring.Checksums.{checksum-members}

Distinct-keys : (m : Map Text (Unit {0})) → HasUniqueKeys m → Distinct (keys m)
Distinct-keys [] empty = tt
Distinct-keys ((k, _) ∷ m) (entry f u) = (f, Distinct-keys m u)

abbrev as_stored : Range
as_stored = record { order = keys; once = Distinct-keys; same_keys = λ m x. (λ h. h, λ h. h) }

-- The second view has a twice listed.
abbrev left_view : List Text
left_view = bytes "b" ∷ bytes "a" ∷ []

abbrev right_view : List Text
right_view = bytes "a" ∷ bytes "b" ∷ bytes "a" ∷ []

same_views : (x : Text) → In x left_view ↔ In x right_view
same_views x = (
  λ h. elim h [ inl e ↦ inr (inl e) | inr (inl e) ↦ inl e | inr (inr k) ↦ absurd k ],
  λ h. elim h [
    | inl e ↦ inr (inl e)
    | inr (inl e) ↦ inl e
    | inr (inr (inl e)) ↦ inr (inl e)
    | inr (inr (inr k)) ↦ absurd k
  ],
)

abbrev sum_of : Text → ℕ
sum_of [] = 0
sum_of (c ∷ s) = c + 2 * sum_of s

checksum-members_example :
    checksum sum_of as_stored left_view ≡ checksum sum_of as_stored right_view
checksum-members_example =
    checksum-members sum_of as_stored as_stored newest_first newest_first left_view right_view
      same_views

sorted_view : sort left_view ≡ bytes "a" ∷ bytes "b" ∷ []
unfolding sort insert text_lt
sorted_view = refl
