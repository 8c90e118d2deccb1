-- ===== src/Hashring.antt =====
-- ConsistentHashring.Checksum (internal/hashring/hashring.go), by which a check compares the members
-- that two nodes see. The members are those of the ring of `Membership`, crc32.ChecksumIEEE is a
-- parameter, and so is the order in which a range over a map runs through its keys.
pub mod Sorted
pub mod Checksums
use access_controller.Prelude.{
  ℕ, ◌≡◌, ◌↔◌, Bool, true, false, ◌&&◌, ◌||◌, List, [], ◌∷◌, ◌++◌, ltb, ◌==◌, if◌then◌else◌, In,
}
use access_controller.Map.{Map, put, keys, HasUniqueKeys}
use access_controller.Text.{Text, bytes, text_key}

-- s < t, on strings: bytewise
unfoldable pub text_lt : Text → Text → Bool
text_lt [] [] = false
text_lt [] (y ∷ ys) = true
text_lt (x ∷ xs) [] = false
text_lt (x ∷ xs) (y ∷ ys) = ltb x y || (x == y && text_lt xs ys)

-- Into a sorted list, before the first element that is not less.
unfoldable pub insert : Text → List Text → List Text
insert x [] = x ∷ []
insert x (y ∷ ys) = let rest = insert x ys in if text_lt y x then y ∷ rest else x ∷ y ∷ ys

-- sort.Strings, by its result
unfoldable pub sort : List Text → List Text
sort [] = []
sort (x ∷ xs) = insert x (sort xs)

-- strings.Join(members, ",")
unfoldable pub join_texts : List Text → Text
join_texts [] = []
join_texts (x ∷ []) = x
join_texts (x ∷ y ∷ ys) = x ++ bytes "," ++ join_texts (y ∷ ys)

-- map[string]struct{}, filled by the first loop
unfoldable pub member_set : List Text → Map Text (Unit {0}) → Map Text (Unit {0})
member_set [] set = set
member_set (m ∷ members) set = member_set members (put set m tt)

-- Each key occurs once.
abbrev pub Distinct : List Text → Type 0
Distinct [] = Unit
Distinct (x ∷ xs) = (¬ In x xs) × Distinct xs

-- The order of a range over a map: each key of the map once.
pub record Range : Type 0 where
  pub order : Map Text (Unit {0}) → List Text
  pub once : (m : Map Text (Unit {0})) → HasUniqueKeys m → Distinct (order m)
  pub same_keys : (m : Map Text (Unit {0})) (x : Text) → In x (order m) ↔ In x (keys m)

-- Checksum, from GetMembers on
unfoldable pub checksum : (Text → ℕ) → Range → List Text → ℕ
checksum crc32 range members = crc32 (join_texts (sort (range.order (member_set members []))))
