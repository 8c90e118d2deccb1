-- ===== src/Tuple/Keys.antt =====
-- The printed form of a relation tuple as a key: the column relationtuple of the lookup table and of
-- the changelog.
use access_controller.Prelude.{ℕ, ◌≡◌, refl, [], ◌∷◌, ◌++◌, inl, inr, In}
use access_controller.Text.{Text}
use access_controller.Tuple.{InternalRelationTuple, tuple_string}
use access_controller.Tuple.Strings.{IsPlainSubject, subject_string_inj}

-- Two texts that are cut at the first `c`.
cut : (c : ℕ) (a b x y : Text) → ¬ In c a → ¬ In c b → a ++ c ∷ x ≡ b ++ c ∷ y → (a ≡ b) × (x ≡ y)
cut c [] [] x y h k e = (refl, cc)
cut c [] (d ∷ b) x y h k e = absurd (k (inl cc))
cut c (d ∷ a) [] x y h k e = absurd (h (inl cc))
cut c (d ∷ a) (f ∷ b) x y h k e =
    let tails : a ++ c ∷ x ≡ b ++ c ∷ y = cc in
    let (p, q) = cut c a b x y (λ m. h (inr m)) (λ m. k (inr m)) tails in (cc, q)

-- The separators stand in none of the parts before them, and the subject is plain.
pub record IsPlainTuple (r : InternalRelationTuple) : Type 0 where
  pub namespace_plain : ¬ In b':' r.namespace
  pub object_plain : ¬ In b'#' r.object
  pub relation_plain : ¬ In b'@' r.relation
  pub subject_plain : IsPlainSubject r.subject

same_tuple :
    (r s : InternalRelationTuple)
    → r.namespace ≡ s.namespace
    → r.object ≡ s.object
    → r.relation ≡ s.relation
    → r.subject ≡ s.subject
    → r ≡ s
same_tuple r s n o k u = cc

-- Two tuples with one printed form are one tuple, if ':' is not in their namespaces, '#' not in
-- their objects, '@' not in their relations, and their subjects are plain.
pub tuple_string_inj :
    (r s : InternalRelationTuple)
    → IsPlainTuple r
    → IsPlainTuple s
    → tuple_string r ≡ tuple_string s
    → r ≡ s
unfolding tuple_string
tuple_string_inj r s p q h =
    let (n, h1) = cut b':' r.namespace s.namespace _ _ p.namespace_plain q.namespace_plain h in
    let (o, h2) = cut b'#' r.object s.object _ _ p.object_plain q.object_plain h1 in
    let (k, h3) = cut b'@' r.relation s.relation _ _ p.relation_plain q.relation_plain h2 in
    same_tuple r s n o k (subject_string_inj r.subject s.subject p.subject_plain q.subject_plain h3)
