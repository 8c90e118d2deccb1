-- ===== src/Check/Rewrites.antt =====
-- checkRewrite against the meaning of a rule, whatever the order in which children end.
use access_controller.Prelude.{◌≡◌, refl, sym, subst, inl, inr, Bool, true, false, Option, some, In}
use access_controller.Config.{
  Rewrite, union, intersection, unset, Child, this, unset_child, computed_subjectset,
  tuple_to_subjectset, nested, Children, nil, cons,
}
use access_controller.Check.{TupleReader, Call, check_rewrite, check_children, check_child}
use access_controller.Check.Types.{Query, Outcome, ok}
use access_controller.Check.Join.{Scheduler}
use access_controller.Check.Join.Results.{join_ok}
use access_controller.Check.Rules.{Decides, Decides-iff, Decides-of, leaf-Decides}
use access_controller.Check.Semantics.{
  Rules, Granted, Holds, in_union, in_intersection, SomeHolds, first, later, EachHolds, end, both,
  ChildHolds, inner,
}

module _ (tuples : TupleReader) (rules : Rules) (sch : Scheduler) (call : Call)
    (right : (q : Query) → Decides (Granted tuples rules q) (call q)) where
  -- Each child's result is right.
  abbrev AreDecided : Children → Query → Type 0
  AreDecided nil q = Unit
  AreDecided (cons c cs) q =
      Decides (ChildHolds tuples rules c q) (check_child sch call tuples c q) × AreDecided cs q

  some_child :
      (cs : Children) (q : Query)
      → AreDecided cs q
      → In (some (ok true)) (check_children sch call tuples cs q)
      → SomeHolds tuples rules cs q
  unfolding check_rewrite
  some_child nil q d h = absurd h
  some_child (cons c cs) q d (inl e) =
      first (subst (Decides (ChildHolds tuples rules c q)) (sym e) d.0)
  some_child (cons c cs) q d (inr h) = later (some_child cs q d.1 h)

  not_each_child :
      (cs : Children) (q : Query)
      → AreDecided cs q
      → In (some (ok false)) (check_children sch call tuples cs q)
      → ¬ EachHolds tuples rules cs q
  unfolding check_rewrite
  not_each_child nil q d h k = absurd h
  not_each_child (cons c cs) q d (inl e) (both k ks) =
      subst (Decides (ChildHolds tuples rules c q)) (sym e) d.0 k
  not_each_child (cons c cs) q d (inr h) (both k ks) = not_each_child cs q d.1 h ks

  -- All the children ended with `b`.
  abbrev AllEnd : Bool → Children → Query → Type 0
  AllEnd b cs q =
      (o : Option Outcome) → In o (check_children sch call tuples cs q) → o ≡ some (ok b)

  no_child :
      (cs : Children) (q : Query)
      → AreDecided cs q
      → AllEnd false cs q
      → ¬ SomeHolds tuples rules cs q
  unfolding check_rewrite
  no_child nil q d all k = elim k [ ]
  no_child (cons c cs) q d all (first k) =
      subst (Decides (ChildHolds tuples rules c q)) (all _ (inl refl)) d.0 k
  no_child (cons c cs) q d all (later k) = no_child cs q d.1 (λ o h. all o (inr h)) k

  each_child :
      (cs : Children) (q : Query) → AreDecided cs q → AllEnd true cs q → EachHolds tuples rules cs q
  unfolding check_rewrite
  each_child nil q d all = end
  each_child (cons c cs) q d all =
      both (subst (Decides (ChildHolds tuples rules c q)) (all _ (inl refl)) d.0)
        (each_child cs q d.1 (λ o h. all o (inr h)))

  union-Decides :
      (cs : Children) (q : Query)
      → AreDecided cs q
      → Decides (Holds tuples rules (union cs) q) (check_rewrite sch call tuples (union cs) q)
  unfolding check_rewrite
  union-Decides cs q d =
      let os = check_children sch call tuples cs q in
      Decides-of _
        (λ e. elim (join_ok true (sch.arrange q (union cs) os) true e) [
          | inl (_, h) ↦ in_union (some_child cs q d (sch.only q (union cs) os _ h))
          | inr (no_case, _) ↦ cc
        ])
        (λ e. elim (join_ok true (sch.arrange q (union cs) os) false e) [
          | inl (no_case, _) ↦ cc
          | inr (_, all) ↦
              not_union cs q (no_child cs q d (λ o h. all o (sch.every q (union cs) os o h)))
        ])
    where
      not_union :
          (cs : Children) (q : Query)
          → ¬ SomeHolds tuples rules cs q
          → ¬ Holds tuples rules (union cs) q
      not_union cs q h (in_union k) = h k

  intersection-Decides :
      (cs : Children) (q : Query)
      → AreDecided cs q
      → Decides
          (Holds tuples rules (intersection cs) q)
          (check_rewrite sch call tuples (intersection cs) q)
  unfolding check_rewrite
  intersection-Decides cs q d =
      let os = check_children sch call tuples cs q in
      Decides-of _
        (λ e. elim (join_ok false (sch.arrange q (intersection cs) os) true e) [
          | inl (no_case, _) ↦ cc
          | inr (_, all) ↦
              in_intersection
                (each_child cs q d (λ o h. all o (sch.every q (intersection cs) os o h)))
        ])
        (λ e. elim (join_ok false (sch.arrange q (intersection cs) os) false e) [
          | inl (_, h) ↦
              not_intersection cs q (not_each_child cs q d (sch.only q (intersection cs) os _ h))
          | inr (no_case, _) ↦ cc
        ])
    where
      not_intersection :
          (cs : Children) (q : Query)
          → ¬ EachHolds tuples rules cs q
          → ¬ Holds tuples rules (intersection cs) q
      not_intersection cs q h (in_intersection k) = h k

  inner_inv :
      (r : Rewrite) (q : Query) → ChildHolds tuples rules (nested r) q → Holds tuples rules r q
  inner_inv r q (inner h) = h

  mutual
    unfolding check_rewrite

    rewrite-Decides :
        (r : Rewrite) (q : Query)
        → Decides (Holds tuples rules r q) (check_rewrite sch call tuples r q)
    rewrite-Decides (union cs) q = union-Decides cs q (children_decide cs q)
    rewrite-Decides (intersection cs) q = intersection-Decides cs q (children_decide cs q)
    rewrite-Decides unset q = λ h. elim h [ ]

    children_decide : (cs : Children) (q : Query) → AreDecided cs q
    children_decide nil q = tt
    children_decide (cons c cs) q = (child-Decides c q, children_decide cs q)

    child-Decides :
        (c : Child) (q : Query)
        → Decides (ChildHolds tuples rules c q) (check_child sch call tuples c q)
    child-Decides (nested r) q =
        Decides-iff (check_rewrite sch call tuples r q) inner (inner_inv r q) (rewrite-Decides r q)
    child-Decides this q = leaf-Decides tuples rules call right q this (λ r. cc)
    child-Decides (computed_subjectset x) q =
        leaf-Decides tuples rules call right q (computed_subjectset x) (λ r. cc)
    child-Decides (tuple_to_subjectset t x) q =
        leaf-Decides tuples rules call right q (tuple_to_subjectset t x) (λ r. cc)
    child-Decides unset_child q = leaf-Decides tuples rules call right q unset_child (λ r. cc)

  -- With right calls the result of a rule is right, whatever the order in which children end.
  pub check_rewrite-Decides :
      (r : Rewrite) (q : Query)
      → Decides (Holds tuples rules r q) (check_rewrite sch call tuples r q)
  check_rewrite-Decides r q = rewrite-Decides r q
