-- ===== src/Check/Total.antt =====
-- When `check` returns: a bound on the fuel from a rank that falls along the references between
-- relations (for one rule).
use access_controller.Prelude.{
  ℕ, zero, suc, ◌<◌, ◌≡◌, refl, sym, subst, ◌≢◌, inl, inr, Bool, true, false, Option, none, some,
  List, [], ◌∷◌, if◌then◌else◌, In, All,
}
use access_controller.Config.{
  Rewrite, union, intersection, unset, Child, this, unset_child, computed_subjectset,
  tuple_to_subjectset, nested, Children, nil, cons,
}
use access_controller.Tuple.{SubjectSet}
use access_controller.Check.{
  TupleReader, Call, object_of, subject_query, followed, tupleset_relation, or_next, check_subjects,
  check_all, check_direct, check_leaf, check_rewrite, check_children, check_child,
}
use access_controller.Check.Types.{Query, Outcome, ok, err}
use access_controller.Check.Join.{
  Arrival, finished, done, is_decisive, select_first, join, Scheduler,
}
use access_controller.Check.Semantics.{Rules}

abbrev pub HasResult : Option Outcome → Type 0
HasResult none = ⊥
HasResult (some o) = Unit

-- Each check that a child, or a rule, makes for `q` is of a smaller rank.
module _ (tuples : TupleReader) (rank : Query → ℕ) where
  abbrev pub AreBelow : ℕ → (SubjectSet → Query) → Option (List SubjectSet) → Type 0
  AreBelow bound query none = Unit
  AreBelow bound query (some ss) = All (λ s. rank (query s) < bound) ss

  abbrev mutual
    pub RuleFalls : Rewrite → Query → Type 0
    RuleFalls (union cs) q = ChildrenFall cs q
    RuleFalls (intersection cs) q = ChildrenFall cs q
    RuleFalls unset q = Unit

    pub ChildrenFall : Children → Query → Type 0
    ChildrenFall nil q = Unit
    ChildrenFall (cons c cs) q = ChildFalls c q × ChildrenFall cs q

    pub ChildFalls : Child → Query → Type 0
    ChildFalls this q =
        AreBelow (rank q) (λ s. subject_query s s.relation q.user)
          (tuples.subject_sets (object_of q) (q.relation ∷ []))
    ChildFalls unset_child q = Unit
    ChildFalls (computed_subjectset relation) q = rank (record q { relation = relation }) < rank q
    ChildFalls (tuple_to_subjectset tupleset c) q =
        AreBelow (rank q) (λ s. subject_query s (followed c s) q.user)
          (tuples.subject_sets (object_of q) (tupleset_relation tupleset ∷ []))
    ChildFalls (nested r) q = RuleFalls r q

-- A rank falls along every rule.
pub record IsRanked (tuples : TupleReader) (rules : Rules) (rank : Query → ℕ) : Type 0 where
  pub falls :
      (q : Query) (r : Rewrite) → rules q.namespace q.relation ≡ some r → RuleFalls tuples rank r q

next_HasResult :
    (o rest : Option Outcome) → HasResult o → HasResult rest → HasResult (or_next o rest)
next_HasResult none rest h k = h
next_HasResult (some (err e)) rest h k = tt
next_HasResult (some (ok true)) rest h k = tt
next_HasResult (some (ok false)) rest h k = k

pub if_HasResult :
    (c : Bool) (o p : Option Outcome) → HasResult o → HasResult p → HasResult (if c then o else p)
if_HasResult true o p h k = h
if_HasResult false o p h k = k

select_HasResult :
    (decisive : Bool) (arrivals : List Arrival)
    → ((o : Option Outcome) → In (finished o) arrivals → HasResult o)
    → HasResult (select_first decisive false arrivals)
unfolding select_first
select_HasResult decisive [] h = tt
select_HasResult decisive (done ∷ rest) h = tt
select_HasResult decisive (finished none ∷ rest) h = absurd (h none (inl refl))
select_HasResult decisive (finished (some (err e)) ∷ rest) h = tt
select_HasResult decisive (finished (some (ok b)) ∷ rest) h =
    if_HasResult (is_decisive decisive b) (some (ok b)) (select_first decisive false rest) tt
      (select_HasResult decisive rest (λ o k. h o (inr k)))

module _ (tuples : TupleReader) (rank : Query → ℕ) (sch : Scheduler) (call : Call) (bound : ℕ)
    (ready : (p : Query) → rank p < bound → HasResult (call p)) where
  subjects_HasResult :
      (query : SubjectSet → Query) (ss : List SubjectSet)
      → All (λ s. rank (query s) < bound) ss
      → HasResult (check_subjects call query ss)
  unfolding check_subjects
  subjects_HasResult query [] h = tt
  subjects_HasResult query (s ∷ ss) h =
      next_HasResult (call (query s)) (check_subjects call query ss) (ready (query s) h.0)
        (subjects_HasResult query ss h.1)

  all_HasResult :
      (query : SubjectSet → Query) (sets : Option (List SubjectSet))
      → AreBelow tuples rank bound query sets
      → HasResult (check_all call query sets)
  unfolding check_leaf
  all_HasResult query none h = tt
  all_HasResult query (some ss) h = subjects_HasResult query ss h

  direct_HasResult :
      (q : Query) (rows : Option ℕ)
      → rank q ≡ bound
      → ChildFalls tuples rank this q
      → HasResult (check_direct call tuples q rows)
  unfolding check_leaf
  direct_HasResult q none e h = tt
  direct_HasResult q (some (suc k)) e h = tt
  direct_HasResult q (some zero) e h = all_HasResult _ _ (rw e at h)

  leaf_HasResult :
      (q : Query) (c : Child)
      → rank q ≡ bound
      → ChildFalls tuples rank c q
      → ((r : Rewrite) → c ≢ nested r)
      → HasResult (check_leaf call tuples c q)
  unfolding check_leaf
  leaf_HasResult q this e h n =
      direct_HasResult q (tuples.row_count (object_of q) (q.relation ∷ []) q.user) e h
  leaf_HasResult q unset_child e h n = tt
  leaf_HasResult q (computed_subjectset relation) e h n = ready _ (rw e at h)
  leaf_HasResult q (tuple_to_subjectset tupleset c) e h n = all_HasResult _ _ (rw e at h)
  leaf_HasResult q (nested r) e h n = absurd (n r refl)

  mutual
    unfolding check_rewrite join

    rewrite_HasResult :
        (r : Rewrite) (q : Query)
        → rank q ≡ bound
        → RuleFalls tuples rank r q
        → HasResult (check_rewrite sch call tuples r q)
    rewrite_HasResult (union cs) q e h =
        select_HasResult true _ (λ o k. children_HasResult cs q e h o (sch.only q (union cs) _ o k))
    rewrite_HasResult (intersection cs) q e h =
        select_HasResult false _
          (λ o k. children_HasResult cs q e h o (sch.only q (intersection cs) _ o k))
    rewrite_HasResult unset q e h = tt

    children_HasResult :
        (cs : Children) (q : Query)
        → rank q ≡ bound
        → ChildrenFall tuples rank cs q
        → (o : Option Outcome) → In o (check_children sch call tuples cs q)
        → HasResult o
    children_HasResult nil q e h o k = absurd k
    children_HasResult (cons c cs) q e h o (inl p) =
        subst HasResult (sym p) (child_HasResult c q e h.0)
    children_HasResult (cons c cs) q e h o (inr k) = children_HasResult cs q e h.1 o k

    child_HasResult :
        (c : Child) (q : Query)
        → rank q ≡ bound
        → ChildFalls tuples rank c q
        → HasResult (check_child sch call tuples c q)
    child_HasResult (nested r) q e h = rewrite_HasResult r q e h
    child_HasResult this q e h = leaf_HasResult q this e h (λ r. cc)
    child_HasResult (computed_subjectset x) q e h =
        leaf_HasResult q (computed_subjectset x) e h (λ r. cc)
    child_HasResult (tuple_to_subjectset t x) q e h =
        leaf_HasResult q (tuple_to_subjectset t x) e h (λ r. cc)
    child_HasResult unset_child q e h = leaf_HasResult q unset_child e h (λ r. cc)

  pub rule_HasResult :
      (r : Rewrite) (q : Query)
      → rank q ≡ bound
      → RuleFalls tuples rank r q
      → HasResult (check_rewrite sch call tuples r q)
  rule_HasResult r q e h = rewrite_HasResult r q e h
