-- ===== src/Expand/Complete.antt =====
-- Each user who is granted the relation is in the tree.
use access_controller.Prelude.{
  ℕ, ◌≡◌, refl, sym, subst, ◌≢◌, ◌⊎◌, inl, inr, Option, none, some, List, [], ◌∷◌, In,
}
use access_controller.Text.{Text}
use access_controller.Config.{
  Rewrite, union, intersection, unset, Child, this, unset_child, computed_subjectset,
  tuple_to_subjectset, nested, Children, nil, cons,
}
use access_controller.Tuple.{SubjectSet, Subject, subject_id, subject_set, InternalRelationTuple}
use access_controller.Result.{returns}
use access_controller.Check.{TupleReader}
use access_controller.Check.Types.{Query}
use access_controller.Check.Semantics.{
  Rules, Granted, Holds, in_union, SomeHolds, first, later, ChildHolds, direct, indirect, computed,
  inner, SomeSubject, here, there,
}
use access_controller.Handler.ListRpc.{TupleLister}
use access_controller.Tree.{leaf_node, SubjectTree, node, Trees, no_trees, ◌▹◌}
use access_controller.Expand.{
  Expansion, or_own, expand_subject, expand_tuples, expand_listed, tuples_of, expand_rewrite,
  expand_children, expand_child,
}
use access_controller.Expand.Meaning.{
  Contains, SomeContains, IsUnionRule, AreUnionChildren, IsUnionChild, query_of, Agree, HaveObjects,
  then_trees-returns,
}
use access_controller.Expand.Meaning.{join_left, join_right}
use access_controller.Expand.Parts.{or_own_lem, call_covers, union_covers, one_covers}

module _ (tuples : TupleReader) (rules : Rules) (list : TupleLister) (user : Text) where
  abbrev pub IsCompleteCall : Expansion → Type 0
  IsCompleteCall call =
      (target : SubjectSet) (depth : ℕ) (o : Option SubjectTree)
      → target.object ≢ []
      → call target depth ≡ some (returns o)
      → Granted tuples rules (query_of target user)
      → (t : SubjectTree) × (o ≡ some t) × Contains t user

  -- A subject that is the user, or a set that has the user.
  abbrev IsMember : Text → Subject → Type 0
  IsMember own subject =
      (subject ≡ subject_id user)
      ⊎ ((s : SubjectSet) × (subject ≡ subject_set s)
          × Granted tuples rules (query_of (record s { relation = or_own own s.relation }) user))

  subject_covers :
      (call : Expansion) (own : Text) (depth : ℕ) (subject : Subject) (ts : Trees)
      → IsCompleteCall call
      → ((s : SubjectSet) → subject ≡ subject_set s → s.object ≢ [])
      → expand_subject call own depth subject ≡ some (returns ts)
      → IsMember own subject
      → SomeContains ts user
  unfolding expand_subject
  subject_covers call own depth (subject_id id) ts complete full e (inl k) =
      let same : node leaf_node (subject_id id) no_trees ▹ no_trees ≡ ts = cc in
      subst (λ x. SomeContains x user) same (inl k)
  subject_covers call own depth (subject_id id) ts complete full e (inr (s, k, g)) = cc
  subject_covers call own depth (subject_set s) ts complete full e (inl k) = cc
  subject_covers call own depth (subject_set s) ts complete full e (inr (s', k, g)) =
      let same : s' ≡ s = cc in
      call_covers user _ ts e (λ o k'. complete _ _ o (full s refl) k' (
        subst
          (λ x.
            Granted tuples rules (query_of (record x { relation = or_own own x.relation }) user))
          same g))

  tuples_cover :
      (call : Expansion) (own : Text) (depth : ℕ) (listed : List InternalRelationTuple) (ts : Trees)
      (t : InternalRelationTuple)
      → IsCompleteCall call
      → HaveObjects listed
      → expand_tuples call own depth listed ≡ some (returns ts)
      → In t listed
      → IsMember own t.subject
      → SomeContains ts user
  unfolding expand_tuples
  tuples_cover call own depth [] ts t complete full e m n = absurd m
  tuples_cover call own depth (x ∷ listed) ts t complete full e (inl k) n =
      let (us, vs, a, b, j) = then_trees-returns _ _ ts e in
      subst (λ y. SomeContains y user) (sym j)
        (join_left us vs user (
          subject_covers call own depth x.subject us complete (full x (inl refl)) a
            (subst (λ y. IsMember own y.subject) k n)))
  tuples_cover call own depth (x ∷ listed) ts t complete full e (inr m) n =
      let (us, vs, a, b, j) = then_trees-returns _ _ ts e in
      subst (λ y. SomeContains y user) (sym j)
        (join_right us vs user
          (tuples_cover call own depth listed vs t complete (λ y i. full y (inr i)) b m n))

  Granted-subject :
      (query : SubjectSet → Query) (ss : List SubjectSet)
      → SomeSubject tuples rules query ss
      → (s : SubjectSet) × In s ss × Granted tuples rules (query s)
  Granted-subject query [] h = elim h [ ]
  Granted-subject query (s ∷ ss) (here g) = (s, inl refl, g)
  Granted-subject query (s ∷ ss) (there h) =
      let (s', m, g) = Granted-subject query ss h in (s', inr m, g)

  module _ (agree : Agree tuples list user) where
    listed_covers :
        (call : Expansion) (target : SubjectSet) (depth : ℕ)
        (o : Option (List InternalRelationTuple)) (ts : Trees)
        → IsCompleteCall call
        → target.object ≢ []
        → list (tuples_of target target.relation) ≡ o
        → expand_listed call target.relation depth o ≡ some (returns ts)
        → ChildHolds tuples rules this (query_of target user)
        → SomeContains ts user
    unfolding expand_listed
    listed_covers call target depth none ts complete full l e h = cc
    listed_covers call target depth (some listed) ts complete full l e (direct {n} k) =
        let (t, m, s) = (agree.counted target listed full l).0 (n, k) in
        tuples_cover call target.relation depth listed ts t complete
          (λ x i y k. (agree.well_formed target listed x y full l i k).1) e m (inl s)
    listed_covers call target depth (some listed) ts complete full l e
          (indirect {ss = found} k some_has) =
        let (ss, k', same) = agree.sets target listed full l in
        let one : found ≡ ss = cc in
        let (s, m, g) = Granted-subject _ found some_has in
        let (t, m', u) = (same s).0 (subst (λ x. In s x) one m) in
        let plain : or_own target.relation s.relation ≡ s.relation =
          or_own_lem target.relation s.relation
            (agree.well_formed target listed t s full l m' u).0 in
        tuples_cover call target.relation depth listed ts t complete
          (λ x i y k. (agree.well_formed target listed x y full l i k).1) e m'
          (inr (
            s,
            u,
            subst (λ r. Granted tuples rules (query_of (record s { relation = r }) user))
                (sym plain) g,
          ))

    mutual
      unfolding expand_rewrite expand_children expand_child

      pub rewrite_covers :
          (call : Expansion) (target : SubjectSet) (depth : ℕ) (r : Rewrite) (t : SubjectTree)
          → IsCompleteCall call
          → target.object ≢ []
          → IsUnionRule r
          → expand_rewrite call list target depth r ≡ some (returns t)
          → Holds tuples rules r (query_of target user)
          → Contains t user
      rewrite_covers call target depth (union cs) t complete full u e (in_union h) =
          union_covers user target (expand_children call list target depth cs) t e
            (λ ts k. children_cover call target depth cs ts complete full u k h)
      rewrite_covers call target depth (intersection cs) t complete full u e h = absurd u
      rewrite_covers call target depth unset t complete full u e h = elim h [ ]

      children_cover :
          (call : Expansion) (target : SubjectSet) (depth : ℕ) (cs : Children) (ts : Trees)
          → IsCompleteCall call
          → target.object ≢ []
          → AreUnionChildren cs
          → expand_children call list target depth cs ≡ some (returns ts)
          → SomeHolds tuples rules cs (query_of target user)
          → SomeContains ts user
      children_cover call target depth nil ts complete full u e h = elim h [ ]
      children_cover call target depth (cons c cs) ts complete full u e (first h) =
          let (us, vs, a, b, j) = then_trees-returns _ _ ts e in
          subst (λ y. SomeContains y user) (sym j)
            (join_left us vs user (child_covers call target depth c us complete full u.0 a h))
      children_cover call target depth (cons c cs) ts complete full u e (later h) =
          let (us, vs, a, b, j) = then_trees-returns _ _ ts e in
          subst (λ y. SomeContains y user) (sym j)
            (join_right us vs user (children_cover call target depth cs vs complete full u.1 b h))

      child_covers :
          (call : Expansion) (target : SubjectSet) (depth : ℕ) (c : Child) (ts : Trees)
          → IsCompleteCall call
          → target.object ≢ []
          → IsUnionChild c
          → expand_child call list target depth c ≡ some (returns ts)
          → ChildHolds tuples rules c (query_of target user)
          → SomeContains ts user
      child_covers call target depth this ts complete full u e h =
          listed_covers call target depth _ ts complete full refl e h
      child_covers call target depth unset_child ts complete full u e h = elim h [ ]
      child_covers call target depth (computed_subjectset relation) ts complete full u e
            (computed g) =
          call_covers user _ ts e (λ o k. complete _ _ o full k g)
      child_covers call target depth (tuple_to_subjectset tupleset c) ts complete full u e h =
          absurd u
      child_covers call target depth (nested r) ts complete full u e (inner h) =
          one_covers user (expand_rewrite call list target depth r) ts e
            (λ t k. rewrite_covers call target depth r t complete full u k h)
