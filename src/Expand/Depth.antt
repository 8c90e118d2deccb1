-- ===== src/Expand/Depth.antt =====
-- The depth that an expansion passes on bounds nothing, and a cycle of subject sets is followed for
-- ever.
use access_controller.Prelude.{
  ℕ, zero, suc, ◌≡◌, refl, ap, Option, none, some, List, [], ◌∷◌, Bool-cases, inl, inr,
}
use access_controller.Text.{Text, text_eq}
use access_controller.Config.{
  Rewrite, union, intersection, unset, Child, this, unset_child, computed_subjectset,
  tuple_to_subjectset, nested, Children, nil, cons, self_rewrite,
}
use access_controller.Tuple.{SubjectSet, Subject, subject_id, subject_set, InternalRelationTuple}
use access_controller.Choose.{ConfigSnapshot}
use access_controller.Handler.ListRpc.{TupleLister}
use access_controller.Expand.{
  Source, Expansion, at_most_one, just_one, with_children, or_own, expand_subject, expand_tuples,
  expand_listed, tuples_of, expand_rewrite, expand_children, expand_child, some_tree, expand_rule,
  expand_at, expand,
}
use access_controller.Expand.Meaning.{chosen_rules, rule_at}
use access_controller.Check.{ellipsis}

module _ (call : Expansion) (list : TupleLister)
    (same : (target : SubjectSet) (d e : ℕ) → call target d ≡ call target e) where
  subject_depth :
      (own : Text) (d e : ℕ) (s : Subject)
      → expand_subject call own d s ≡ expand_subject call own e s
  unfolding expand_subject
  subject_depth own d e (subject_id id) = refl
  subject_depth own d e (subject_set s) = ap at_most_one (same _ _ _)

  tuples_depth :
      (own : Text) (d e : ℕ) (ts : List InternalRelationTuple)
      → expand_tuples call own d ts ≡ expand_tuples call own e ts
  unfolding expand_tuples
  tuples_depth own d e [] = refl
  tuples_depth own d e (t ∷ ts) =
      rw (subject_depth own d e t.subject) (rw (tuples_depth own d e ts) refl)

  listed_depth :
      (own : Text) (d e : ℕ) (o : Option (List InternalRelationTuple))
      → expand_listed call own d o ≡ expand_listed call own e o
  unfolding expand_listed
  listed_depth own d e none = refl
  listed_depth own d e (some ts) = tuples_depth own d e ts

  mutual
    unfolding expand_rewrite expand_children expand_child

    rewrite_depth :
        (target : SubjectSet) (d e : ℕ) (r : Rewrite)
        → expand_rewrite call list target d r ≡ expand_rewrite call list target e r
    rewrite_depth target d e (union cs) = ap (with_children _ _) (children_depth target d e cs)
    rewrite_depth target d e (intersection cs) =
        ap (with_children _ _) (children_depth target d e cs)
    rewrite_depth target d e unset = refl

    children_depth :
        (target : SubjectSet) (d e : ℕ) (cs : Children)
        → expand_children call list target d cs ≡ expand_children call list target e cs
    children_depth target d e nil = refl
    children_depth target d e (cons c cs) =
        rw (child_depth target d e c) (rw (children_depth target d e cs) refl)

    child_depth :
        (target : SubjectSet) (d e : ℕ) (c : Child)
        → expand_child call list target d c ≡ expand_child call list target e c
    child_depth target d e this = listed_depth _ d e _
    child_depth target d e unset_child = refl
    child_depth target d e (computed_subjectset relation) = ap at_most_one (same _ _ _)
    child_depth target d e (tuple_to_subjectset tupleset c) = listed_depth _ d e _
    child_depth target d e (nested r) = ap just_one (rewrite_depth target d e r)

  rule_depth :
      (target : SubjectSet) (d e : ℕ) (o : Option Rewrite)
      → expand_rule call list target d o ≡ expand_rule call list target e o
  rule_depth target d e none = refl
  rule_depth target d e (some r) = ap some_tree (rewrite_depth target d e r)

  at_depth :
      (target : SubjectSet) (d e : ℕ) (o : Option ConfigSnapshot)
      → expand_at call list target d o ≡ expand_at call list target e o
  at_depth target d e none = refl
  at_depth target d e (some s) = rule_depth target d e _

-- The depth has no influence on an expansion: whatever depth it starts with, it follows the same
-- tuples and gives the same tree, or none.
pub expand-depth :
    (source : Source) (fuel : ℕ) (target : SubjectSet) (d e : ℕ)
    → expand source fuel target d ≡ expand source fuel target e
unfolding expand
expand-depth source zero target d e = refl
expand-depth source (suc fuel) target d e =
    at_depth (expand source fuel) source.list (expand-depth source fuel) target d e _

-- A relation without a rewrite rule, whose only tuple of the object names the relation of the object
-- itself.
pub record IsOwnMember (source : Source) (target : SubjectSet) : Type 0 where
  pub plain : chosen_rules source.configs target.namespace target.relation ≡ some self_rewrite
  pub cyclic :
      (t : InternalRelationTuple) × (source.list (tuples_of target target.relation) ≡ some (t ∷ []))
      × (t.subject ≡ subject_set target)

or_own_self : (own : Text) → or_own own own ≡ own
or_own_self own = elim (Bool-cases (text_eq own ellipsis)) [ inl b ↦ rw b refl | inr b ↦ rw b refl ]

module _ (source : Source) (target : SubjectSet) (own : IsOwnMember source target)
    (call : Expansion) (runs : (d : ℕ) → call target d ≡ none) where
  subject_runs :
      (d : ℕ) (s : Subject)
      → s ≡ subject_set target
      → expand_subject call target.relation d s ≡ none
  unfolding expand_subject
  subject_runs d (subject_id id) e = cc
  subject_runs d (subject_set s) e =
      let same : s ≡ target = cc in rw (same, or_own_self target.relation) (ap at_most_one (runs _))

  this_runs : (d : ℕ) → expand_child call source.list target d this ≡ none
  unfolding expand_child expand_listed expand_tuples
  this_runs d =
      let (t, listed, names) = own.cyclic in rw listed (rw (subject_runs d t.subject names) refl)

  at_runs :
      (d : ℕ) (o : Option ConfigSnapshot)
      → rule_at target.relation o ≡ some self_rewrite
      → expand_at call source.list target d o ≡ none
  unfolding expand_rewrite
  at_runs d none e = cc
  at_runs d (some s) e = rw e (rw (this_runs d) refl)

-- An expansion of a relation without a rewrite rule, whose only tuple of the object names the
-- relation itself, does not return, whatever the fuel and the depth that it starts with.
pub expand_own-diverges :
    (source : Source) (target : SubjectSet) (fuel d : ℕ)
    → IsOwnMember source target
    → expand source fuel target d ≡ none
unfolding expand
expand_own-diverges source target zero d own = refl
expand_own-diverges source target (suc fuel) d own =
    at_runs source target own (expand source fuel)
      (λ e. expand_own-diverges source target fuel e own) d _ own.plain
