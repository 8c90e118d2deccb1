-- ===== src/Expand/Sound.antt =====
-- Each user in the tree is granted the relation.
use access_controller.Prelude.{
  ℕ, ◌≡◌, refl, subst, ◌≢◌, ◌⊎◌, inl, inr, Option, none, some, List, [], ◌∷◌, In,
}
use access_controller.Text.{Text}
use access_controller.Config.{
  Rewrite, union, intersection, unset, Child, this, unset_child, computed_subjectset,
  tuple_to_subjectset, nested, Children, nil, cons,
}
use access_controller.Tuple.{SubjectSet, Subject, subject_id, subject_set, InternalRelationTuple}
use access_controller.Result.{returns}
use access_controller.Check.{TupleReader}
use access_controller.Check.Types.{Query}
use access_controller.Check.Semantics.{
  Rules, Granted, Holds, in_union, SomeHolds, first, later, ChildHolds, direct, indirect, computed,
  inner, SomeSubject, here, there,
}
use access_controller.Handler.ListRpc.{TupleLister}
use access_controller.Tree.{leaf_node, no_type, SubjectTree, node, Trees, no_trees, ◌▹◌}
use access_controller.Expand.{
  Expansion, or_own, expand_subject, expand_tuples, expand_listed, tuples_of, expand_rewrite,
  expand_children, expand_child,
}
use access_controller.Expand.Meaning.{
  Contains, SomeContains, IsUnionRule, AreUnionChildren, IsUnionChild, query_of, Agree, HaveObjects,
  join-cases, then_trees-returns,
}
use access_controller.Expand.Parts.{
  or_own_lem, contained, at_most_one-Contains, with_children-Contains, just_one-Contains,
}

module _ (tuples : TupleReader) (rules : Rules) (list : TupleLister) (user : Text) where
  -- What is shown of the calls that an expansion makes.
  abbrev pub IsSoundCall : Expansion → Type 0
  IsSoundCall call =
      (target : SubjectSet) (depth : ℕ) (t : SubjectTree)
      → target.object ≢ []
      → call target depth ≡ some (returns (some t))
      → Contains t user
      → Granted tuples rules (query_of target user)

  -- A tuple that names the user, or a subject set that has the user.
  abbrev Names : Text → List InternalRelationTuple → Type 0
  Names own listed =
      (t : InternalRelationTuple) × In t listed
      × ((t.subject ≡ subject_id user)
          ⊎ ((s : SubjectSet) × (t.subject ≡ subject_set s)
              × Granted tuples rules
                  (query_of (record s { relation = or_own own s.relation }) user)))

  expand_subject-names :
      (call : Expansion) (own : Text) (depth : ℕ) (subject : Subject) (ts : Trees)
      → IsSoundCall call
      → ((s : SubjectSet) → subject ≡ subject_set s → s.object ≢ [])
      → expand_subject call own depth subject ≡ some (returns ts)
      → SomeContains ts user
      → (subject ≡ subject_id user)
        ⊎ ((s : SubjectSet) × (subject ≡ subject_set s)
            × Granted tuples rules (query_of (record s { relation = or_own own s.relation }) user))
  unfolding expand_subject
  expand_subject-names call own depth (subject_id id) ts sound full e h =
      elim (contained (node leaf_node (subject_id id) no_trees ▹ no_trees) ts user e h) [
        | inl k ↦ inl k
        | inr k ↦ absurd k
      ]
  expand_subject-names call own depth (subject_set s) ts sound full e h =
      let (t, k, c) = at_most_one-Contains _ ts user e h in
      inr (s, refl, sound _ _ t (full s refl) k c)

  expand_tuples-Names :
      (call : Expansion) (own : Text) (depth : ℕ) (listed : List InternalRelationTuple) (ts : Trees)
      → IsSoundCall call
      → HaveObjects listed
      → expand_tuples call own depth listed ≡ some (returns ts)
      → SomeContains ts user
      → Names own listed
  unfolding expand_tuples
  expand_tuples-Names call own depth [] ts sound full e h = absurd (contained no_trees ts user e h)
  expand_tuples-Names call own depth (t ∷ listed) ts sound full e h =
      let (us, vs, a, b, j) = then_trees-returns _ _ ts e in
      elim (join-cases us vs user (subst (λ x. SomeContains x user) j h)) [
        | inl k ↦ (
          t,
          inl refl,
          expand_subject-names call own depth t.subject us sound (full t (inl refl)) a k,
        )
        | inr k ↦
            let (t', m, n) =
              expand_tuples-Names call own depth listed vs sound (λ x i. full x (inr i)) b k in
            (t', inr m, n)
      ]

  some_subject :
      (query : SubjectSet → Query) (s : SubjectSet) (ss : List SubjectSet)
      → In s ss
      → Granted tuples rules (query s)
      → SomeSubject tuples rules query ss
  some_subject query s [] m g = absurd m
  some_subject query s (x ∷ ss) (inl e) g = here (subst (λ y. Granted tuples rules (query y)) e g)
  some_subject query s (x ∷ ss) (inr m) g = there (some_subject query s ss m g)

  module _ (agree : Agree tuples list user) where
    this_holds :
        (target : SubjectSet) (listed : List InternalRelationTuple)
        → target.object ≢ []
        → list (tuples_of target target.relation) ≡ some listed
        → Names target.relation listed
        → ChildHolds tuples rules this (query_of target user)
    this_holds target listed o l (t, m, inl e) =
        let (n, k) = (agree.counted target listed o l).1 (t, m, e) in direct k
    this_holds target listed o l (t, m, inr (s, e, g)) =
        let (ss, k, same) = agree.sets target listed o l in
        let plain : or_own target.relation s.relation ≡ s.relation =
          or_own_lem target.relation s.relation (agree.well_formed target listed t s o l m e).0 in
        indirect k (
          some_subject (λ x. query_of x user) s ss ((same s).1 (t, m, e))
            (subst (λ r. Granted tuples rules (query_of (record s { relation = r }) user)) plain g))

    listed_holds :
        (call : Expansion) (target : SubjectSet) (depth : ℕ)
        (o : Option (List InternalRelationTuple)) (ts : Trees)
        → IsSoundCall call
        → target.object ≢ []
        → list (tuples_of target target.relation) ≡ o
        → expand_listed call target.relation depth o ≡ some (returns ts)
        → SomeContains ts user
        → ChildHolds tuples rules this (query_of target user)
    unfolding expand_listed
    listed_holds call target depth none ts sound full l e h = cc
    listed_holds call target depth (some listed) ts sound full l e h =
        this_holds target listed full l (
          expand_tuples-Names call target.relation depth listed ts sound
            (λ t m s k. (agree.well_formed target listed t s full l m k).1) e h)

    mutual
      unfolding expand_rewrite expand_children expand_child

      pub rewrite_holds :
          (call : Expansion) (target : SubjectSet) (depth : ℕ) (r : Rewrite) (t : SubjectTree)
          → IsSoundCall call
          → target.object ≢ []
          → IsUnionRule r
          → expand_rewrite call list target depth r ≡ some (returns t)
          → Contains t user
          → Holds tuples rules r (query_of target user)
      rewrite_holds call target depth (union cs) t sound full u e h =
          let (ts, k, c) = with_children-Contains user _ _ t e h in
          in_union (children_hold call target depth cs ts sound full u k c)
      rewrite_holds call target depth (intersection cs) t sound full u e h = absurd u
      rewrite_holds call target depth unset t sound full u e h =
          let same : t ≡ node no_type (subject_set target) no_trees = cc in
          absurd (subst (λ x. Contains x user) same h)

      children_hold :
          (call : Expansion) (target : SubjectSet) (depth : ℕ) (cs : Children) (ts : Trees)
          → IsSoundCall call
          → target.object ≢ []
          → AreUnionChildren cs
          → expand_children call list target depth cs ≡ some (returns ts)
          → SomeContains ts user
          → SomeHolds tuples rules cs (query_of target user)
      children_hold call target depth nil ts sound full u e h =
          absurd (contained no_trees ts user e h)
      children_hold call target depth (cons c cs) ts sound full u e h =
          let (us, vs, a, b, j) = then_trees-returns _ _ ts e in
          elim (join-cases us vs user (subst (λ x. SomeContains x user) j h)) [
            | inl k ↦ first (child_holds call target depth c us sound full u.0 a k)
            | inr k ↦ later (children_hold call target depth cs vs sound full u.1 b k)
          ]

      child_holds :
          (call : Expansion) (target : SubjectSet) (depth : ℕ) (c : Child) (ts : Trees)
          → IsSoundCall call
          → target.object ≢ []
          → IsUnionChild c
          → expand_child call list target depth c ≡ some (returns ts)
          → SomeContains ts user
          → ChildHolds tuples rules c (query_of target user)
      child_holds call target depth this ts sound full u e h =
          listed_holds call target depth _ ts sound full refl e h
      child_holds call target depth unset_child ts sound full u e h =
          absurd (contained no_trees ts user e h)
      child_holds call target depth (computed_subjectset relation) ts sound full u e h =
          let (t, k, c) = at_most_one-Contains _ ts user e h in computed (sound _ _ t full k c)
      child_holds call target depth (tuple_to_subjectset tupleset c) ts sound full u e h = absurd u
      child_holds call target depth (nested r) ts sound full u e h =
          let (t, k, c) = just_one-Contains user _ ts e h in
          inner (rewrite_holds call target depth r t sound full u k c)
