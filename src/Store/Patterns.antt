-- ===== src/Store/Patterns.antt =====
-- The pattern by which the store selects subject sets.
use access_controller.Prelude.{ℕ, ◌≡◌, refl, ◌≢◌, inl, inr, true, [], ◌∷◌, ◌++◌, In, arith}
use mathlib.Core.List.{append_assoc}
use access_controller.Text.{Text, bytes, contains}
use access_controller.Tuple.{SubjectSet, subject_set, set_string}
use access_controller.Store.Rows.{Like, end, any_one, skip, take, same, IsProper}

-- A pattern that begins with '%' covers what the rest covers behind any text.
Like-any : (a x p : Text) → Like p x → Like (b'%' ∷ p) (a ++ x)
Like-any [] x p h = skip h
Like-any (c ∷ a) x p h = take (Like-any a x p h)

Like-part : (a x p : Text) → a ≢ [] → Like p x → Like (b'_' ∷ b'%' ∷ b'%' ∷ p) (a ++ x)
Like-part [] x p ne h = absurd (ne refl)
Like-part (c ∷ a) x p ne h = any_one (Like-any a x (b'%' ∷ p) (skip h))

Like-rest : (a : Text) → a ≢ [] → Like (bytes "_%%") a
Like-rest [] ne = absurd (ne refl)
Like-rest (c ∷ a) ne = any_one (all a)
  where
    all : (a : Text) → Like (bytes "%%") a
    all [] = skip (skip end)
    all (c ∷ a) = take (all a)

-- The text form of a subject set whose parts are not empty is like the pattern.
pub set-Like :
    (s : SubjectSet) → IsProper (subject_set s) → Like (bytes "_%%:_%%#_%%") (set_string s)
unfolding set_string
set-Like s (ns, object, relation, named) =
    rw (append_assoc s.namespace (b':' ∷ s.object) (b'#' ∷ s.relation)) (
      Like-part s.namespace _ _ ns (
        same (omega arith) (omega arith) (
          Like-part s.object _ _ object
            (same (omega arith) (omega arith) (Like-rest s.relation relation)))))

-- Each plain character of a pattern is in the texts that are like it.
pub Like-contains :
    {p s : Text} → (c : ℕ) → c ≢ b'_' → c ≢ b'%' → In c p → Like p s → contains s c ≡ true
unfolding contains
Like-contains c u v m end = absurd m
Like-contains c u v (inl e) (any_one h) = absurd (u e)
Like-contains c u v (inr m) (any_one h) = ground (arith, Like-contains c u v m h)
Like-contains c u v (inl e) (skip h) = absurd (v e)
Like-contains c u v (inr m) (skip h) = Like-contains c u v m h
Like-contains c u v m (take h) = ground (arith, Like-contains c u v m h)
Like-contains c u v (inl e) (same j k h) = ground arith
Like-contains c u v (inr m) (same j k h) = ground (arith, Like-contains c u v m h)
