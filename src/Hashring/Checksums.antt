-- ===== src/Hashring/Checksums.antt =====
-- Which rings have one checksum.
use access_controller.Prelude.{ℕ, ◌≡◌, ap, ◌↔◌, ◌⊎◌, inl, inr, List, [], ◌∷◌, In}
use access_controller.Map.{Map, put, keys, HasUniqueKeys, empty}
use access_controller.Map.Entries.{keys-put, put-keys_old, put-keys_new, put-HasUniqueKeys}
use access_controller.Text.{Text, text_key}
use access_controller.Membership.{Ring}
use access_controller.Hashring.{sort, join_texts, member_set, Range, checksum}
use access_controller.Hashring.Sorted.{IsSorted, sort-In, sort-IsSorted, IsSorted-unique}

member_set-HasUniqueKeys :
    (ms : List Text) (set : Map Text (Unit {0}))
    → HasUniqueKeys set
    → HasUniqueKeys (member_set ms set)
unfolding member_set
member_set-HasUniqueKeys [] set u = u
member_set-HasUniqueKeys (m ∷ ms) set u =
    member_set-HasUniqueKeys ms (put set m tt) (put-HasUniqueKeys set m tt u)

keys-member_set :
    (ms : List Text) (set : Map Text (Unit {0})) (x : Text)
    → In x (keys (member_set ms set)) ↔ (In x ms ⊎ In x (keys set))
unfolding member_set
keys-member_set [] set x = (λ h. inr h, λ h. elim h [ inl m ↦ absurd m | inr k ↦ k ])
keys-member_set (m ∷ ms) set x =
    let rest = keys-member_set ms (put set m tt) x in
    (
      λ h. elim (rest.0 h) [
        | inl k ↦ inl (inr k)
        | inr k ↦ elim (keys-put set m tt x k) [ inl e ↦ inl (inl e) | inr n ↦ inr n ]
      ],
      λ h. elim h [
        | inl (inl e) ↦ rest.1 (inr (rw e (put-keys_new set m tt)))
        | inl (inr k) ↦ rest.1 (inl k)
        | inr k ↦ rest.1 (inr (put-keys_old set m tt x k))
      ],
    )

-- The sorted list that is joined has the members of the ring.
IsSorted-members :
    (range : Range) (ms : List Text)
    → IsSorted (sort (range.order (member_set ms [])))
      × ((x : Text) → In x (sort (range.order (member_set ms []))) ↔ In x ms)
IsSorted-members range ms =
    let unique = member_set-HasUniqueKeys ms [] empty in
    (
      sort-IsSorted _ (range.once (member_set ms []) unique),
      λ x. (
        λ h.
            elim ((keys-member_set ms [] x).0
              ((range.same_keys (member_set ms []) x).0 ((sort-In _ x).0 h))) [
                | inl m ↦ m
                | inr m ↦ absurd m
              ],
        λ h.
            (sort-In _ x).1
              ((range.same_keys (member_set ms []) x).1 ((keys-member_set ms [] x).1 (inl h))),
      ),
    )

-- Two rings with the same members have the same checksum, whatever the library lists them as, in
-- what order and how often, and in whatever orders the two nodes run through their maps.
pub checksum-members :
    {R S : Type 0} (crc32 : Text → ℕ) (left right : Range) (ring : Ring R) (other : Ring S) (r : R)
    (s : S)
    → ((x : Text) → In x (ring.members r) ↔ In x (other.members s))
    → checksum crc32 left (ring.members r) ≡ checksum crc32 right (other.members s)
unfolding checksum
checksum-members crc32 left right ring other r s same =
    let (a, in_a) = IsSorted-members left (ring.members r) in
    let (b, in_b) = IsSorted-members right (other.members s) in
    ap (λ ms. crc32 (join_texts ms))
      (IsSorted-unique _ _ a b (λ x.
        (λ m. (in_b x).1 ((same x).0 ((in_a x).0 m)), λ m. (in_a x).1 ((same x).1 ((in_b x).0 m)))))
