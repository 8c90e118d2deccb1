-- ===== src/Expand/Parts.antt =====
-- The trees of the parts of an expansion, and the users in them.
use access_controller.Prelude.{◌≡◌, refl, subst, ◌≢◌, inl, inr, Option, none, some, Bool-cases}
use access_controller.Text.{Text, text_eq, text_eq_iff}
use access_controller.Tuple.{SubjectSet, Subject, subject_set}
use access_controller.Result.{returns, fails}
use access_controller.Check.{ellipsis}
use access_controller.Tree.{union_node, SubjectTree, node, Trees, no_trees, ◌▹◌}
use access_controller.Expand.{Pending, at_most_one, just_one, with_children, or_own}
use access_controller.Expand.Meaning.{Contains, SomeContains}

pub or_own_lem : (own relation : Text) → relation ≢ ellipsis → or_own own relation ≡ relation
or_own_lem own relation ne = elim (Bool-cases (text_eq relation ellipsis)) [
  | inl b ↦ absurd (ne ((text_eq_iff relation ellipsis).0 b))
  | inr b ↦ rw b refl
]

pub contained :
    (us ts : Trees) (user : Text)
    → some (returns us) ≡ some (returns ts)
    → SomeContains ts user
    → SomeContains us user
contained us ts user e h = let same : ts ≡ us = cc in subst (λ x. SomeContains x user) same h

pub at_most_one-Contains :
    (p : Pending (Option SubjectTree)) (ts : Trees) (user : Text)
    → at_most_one p ≡ some (returns ts)
    → SomeContains ts user
    → (t : SubjectTree) × (p ≡ some (returns (some t))) × Contains t user
at_most_one-Contains none ts user e h = cc
at_most_one-Contains (some (fails f)) ts user e h = cc
at_most_one-Contains (some (returns none)) ts user e h = absurd (contained no_trees ts user e h)
at_most_one-Contains (some (returns (some t))) ts user e h =
    elim (contained (t ▹ no_trees) ts user e h) [ inl k ↦ (t, refl, k) | inr k ↦ absurd k ]

module _ (user : Text) where
  pub with_children-Contains :
      (subject : Subject) (p : Pending Trees) (t : SubjectTree)
      → with_children union_node subject p ≡ some (returns t)
      → Contains t user
      → (ts : Trees) × (p ≡ some (returns ts)) × SomeContains ts user
  with_children-Contains subject none t e h = cc
  with_children-Contains subject (some (fails f)) t e h = cc
  with_children-Contains subject (some (returns ts)) t e h =
      let same : t ≡ node union_node subject ts = cc in
      (ts, refl, subst (λ x. Contains x user) same h)

  pub just_one-Contains :
      (p : Pending SubjectTree) (ts : Trees)
      → just_one p ≡ some (returns ts)
      → SomeContains ts user
      → (t : SubjectTree) × (p ≡ some (returns t)) × Contains t user
  just_one-Contains none ts e h = cc
  just_one-Contains (some (fails f)) ts e h = cc
  just_one-Contains (some (returns t)) ts e h = elim (contained (t ▹ no_trees) ts user e h) [
    | inl k ↦ (t, refl, k)
    | inr k ↦ absurd k
  ]

  pub call_covers :
      (p : Pending (Option SubjectTree)) (ts : Trees)
      → at_most_one p ≡ some (returns ts)
      → ((o : Option SubjectTree)
          → p ≡ some (returns o)
          → (t : SubjectTree) × (o ≡ some t) × Contains t user)
      → SomeContains ts user
  call_covers none ts e h = cc
  call_covers (some (fails f)) ts e h = cc
  call_covers (some (returns none)) ts e h = let (t, k, c) = h none refl in cc
  call_covers (some (returns (some u))) ts e h =
      let (t, k, c) = h (some u) refl in
      let same : t ▹ no_trees ≡ ts = cc in subst (λ x. SomeContains x user) same (inl c)

  pub union_covers :
      (target : SubjectSet) (p : Pending Trees) (t : SubjectTree)
      → with_children union_node (subject_set target) p ≡ some (returns t)
      → ((ts : Trees) → p ≡ some (returns ts) → SomeContains ts user)
      → Contains t user
  union_covers target none t e h = cc
  union_covers target (some (fails f)) t e h = cc
  union_covers target (some (returns ts)) t e h =
      let same : node union_node (subject_set target) ts ≡ t = cc in
      subst (λ x. Contains x user) same (h ts refl)

  pub one_covers :
      (p : Pending SubjectTree) (ts : Trees)
      → just_one p ≡ some (returns ts)
      → ((t : SubjectTree) → p ≡ some (returns t) → Contains t user)
      → SomeContains ts user
  one_covers none ts e h = cc
  one_covers (some (fails f)) ts e h = cc
  one_covers (some (returns t)) ts e h =
      let same : t ▹ no_trees ≡ ts = cc in subst (λ x. SomeContains x user) same (inl (h t refl))
