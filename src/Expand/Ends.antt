-- ===== src/Expand/Ends.antt =====
-- An expansion returns, with enough fuel, if a rank falls along the references between relations.
use access_controller.Prelude.{
  ℕ, zero, suc, ◌<◌, ◌≡◌, refl, ap, Option, none, some, List, [], ◌∷◌, All, arith,
}
use access_controller.Text.{Text}
use access_controller.Config.{
  Rewrite, union, intersection, unset, Child, this, unset_child, computed_subjectset,
  tuple_to_subjectset, nested, Children, nil, cons,
}
use access_controller.Tuple.{SubjectSet, Subject, subject_id, subject_set, InternalRelationTuple}
use access_controller.Result.{Result, returns, fails}
use access_controller.Choose.{ConfigSnapshot, choose}
use access_controller.Check.{tupleset_relation}
use access_controller.Handler.ListRpc.{TupleLister}
use access_controller.Tree.{NodeType, SubjectTree, Trees}
use access_controller.Expand.{
  Source, Pending, Expansion, then_trees, at_most_one, just_one, with_children, or_own,
  expand_subject, expand_tuples, expand_listed, tuples_of, expand_rewrite, expand_children,
  expand_child, some_tree, expand_rule, expand_at, expand,
}
use access_controller.Expand.Meaning.{chosen_rules, rule_at}

abbrev IsOver : {A : Type 0} → Pending A → Type 0
IsOver none = ⊥
IsOver (some r) = Unit

-- Each relation that a rule's expansion of `target` goes on with is of a smaller rank.
module _ (list : TupleLister) (rank : SubjectSet → ℕ) where
  abbrev pub SubjectFalls : Text → ℕ → Subject → Type 0
  SubjectFalls own bound (subject_id id) = Unit
  SubjectFalls own bound (subject_set s) =
      rank (record s { relation = or_own own s.relation }) < bound

  abbrev pub ListedFall : Text → ℕ → Option (List InternalRelationTuple) → Type 0
  ListedFall own bound none = Unit
  ListedFall own bound (some ts) = All (λ t. SubjectFalls own bound t.subject) ts

  abbrev mutual
    pub RuleFalls : SubjectSet → Rewrite → Type 0
    RuleFalls target (union cs) = ChildrenFall target cs
    RuleFalls target (intersection cs) = ChildrenFall target cs
    RuleFalls target unset = Unit

    pub ChildrenFall : SubjectSet → Children → Type 0
    ChildrenFall target nil = Unit
    ChildrenFall target (cons c cs) = ChildFalls target c × ChildrenFall target cs

    pub ChildFalls : SubjectSet → Child → Type 0
    ChildFalls target this =
        ListedFall target.relation (rank target) (list (tuples_of target target.relation))
    ChildFalls target unset_child = Unit
    ChildFalls target (computed_subjectset relation) =
        rank (record target { relation = relation }) < rank target
    ChildFalls target (tuple_to_subjectset tupleset c) =
        ListedFall target.relation (rank target)
          (list (tuples_of target (or_own target.relation (tupleset_relation tupleset))))
    ChildFalls target (nested r) = RuleFalls target r

-- A rank falls along every rule that is in force.
pub record IsRanked (source : Source) (rank : SubjectSet → ℕ) : Type 0 where
  pub falls :
      (target : SubjectSet) (r : Rewrite)
      → chosen_rules source.configs target.namespace target.relation ≡ some r
      → RuleFalls source.list rank target r

then-IsOver : (a b : Pending Trees) → IsOver a → IsOver b → IsOver (then_trees a b)
then-IsOver none b h k = h
then-IsOver (some (fails e)) b h k = tt
then-IsOver (some (returns ts)) none h k = k
then-IsOver (some (returns ts)) (some (fails e)) h k = tt
then-IsOver (some (returns ts)) (some (returns us)) h k = tt

at_most_one-IsOver : (p : Pending (Option SubjectTree)) → IsOver p → IsOver (at_most_one p)
at_most_one-IsOver none h = h
at_most_one-IsOver (some (fails e)) h = tt
at_most_one-IsOver (some (returns none)) h = tt
at_most_one-IsOver (some (returns (some t))) h = tt

just_one-IsOver : (p : Pending SubjectTree) → IsOver p → IsOver (just_one p)
just_one-IsOver none h = h
just_one-IsOver (some (fails e)) h = tt
just_one-IsOver (some (returns t)) h = tt

with_children-IsOver :
    (type : NodeType) (s : Subject) (p : Pending Trees) → IsOver p → IsOver (with_children type s p)
with_children-IsOver type s none h = h
with_children-IsOver type s (some (fails e)) h = tt
with_children-IsOver type s (some (returns ts)) h = tt

some_tree-IsOver : (p : Pending SubjectTree) → IsOver p → IsOver (some_tree p)
some_tree-IsOver none h = h
some_tree-IsOver (some (fails e)) h = tt
some_tree-IsOver (some (returns t)) h = tt

module _ (list : TupleLister) (rank : SubjectSet → ℕ) (call : Expansion) (bound : ℕ)
    (ready : (s : SubjectSet) (d : ℕ) → rank s < bound → IsOver (call s d)) where
  subject-IsOver :
      (own : Text) (d : ℕ) (s : Subject)
      → SubjectFalls list rank own bound s
      → IsOver (expand_subject call own d s)
  unfolding expand_subject
  subject-IsOver own d (subject_id id) h = tt
  subject-IsOver own d (subject_set s) h = at_most_one-IsOver _ (ready _ _ h)

  tuples-IsOver :
      (own : Text) (d : ℕ) (ts : List InternalRelationTuple)
      → All (λ t. SubjectFalls list rank own bound t.subject) ts
      → IsOver (expand_tuples call own d ts)
  unfolding expand_tuples
  tuples-IsOver own d [] h = tt
  tuples-IsOver own d (t ∷ ts) h =
      then-IsOver _ _ (subject-IsOver own d t.subject h.0) (tuples-IsOver own d ts h.1)

  listed-IsOver :
      (own : Text) (d : ℕ) (o : Option (List InternalRelationTuple))
      → ListedFall list rank own bound o
      → IsOver (expand_listed call own d o)
  unfolding expand_listed
  listed-IsOver own d none h = tt
  listed-IsOver own d (some ts) h = tuples-IsOver own d ts h

module _ (list : TupleLister) (rank : SubjectSet → ℕ) (call : Expansion) (target : SubjectSet)
    (ready : (s : SubjectSet) (d : ℕ) → rank s < rank target → IsOver (call s d)) where
  mutual
    unfolding expand_rewrite expand_children expand_child

    rewrite-IsOver :
        (d : ℕ) (r : Rewrite)
        → RuleFalls list rank target r
        → IsOver (expand_rewrite call list target d r)
    rewrite-IsOver d (union cs) h = with_children-IsOver _ _ _ (children-IsOver d cs h)
    rewrite-IsOver d (intersection cs) h = with_children-IsOver _ _ _ (children-IsOver d cs h)
    rewrite-IsOver d unset h = tt

    children-IsOver :
        (d : ℕ) (cs : Children)
        → ChildrenFall list rank target cs
        → IsOver (expand_children call list target d cs)
    children-IsOver d nil h = tt
    children-IsOver d (cons c cs) h =
        then-IsOver _ _ (child-IsOver d c h.0) (children-IsOver d cs h.1)

    child-IsOver :
        (d : ℕ) (c : Child)
        → ChildFalls list rank target c
        → IsOver (expand_child call list target d c)
    child-IsOver d this h = listed-IsOver list rank call (rank target) ready _ d _ h
    child-IsOver d unset_child h = tt
    child-IsOver d (computed_subjectset relation) h = at_most_one-IsOver _ (ready _ _ h)
    child-IsOver d (tuple_to_subjectset tupleset c) h =
        listed-IsOver list rank call (rank target) ready _ d _ h
    child-IsOver d (nested r) h = just_one-IsOver _ (rewrite-IsOver d r h)

module _ (source : Source) (rank : SubjectSet → ℕ) (ranked : IsRanked source rank) where
  rule-IsOver :
      (call : Expansion) (target : SubjectSet) (d : ℕ) (o : Option Rewrite)
      → ((s : SubjectSet) (e : ℕ) → rank s < rank target → IsOver (call s e))
      → chosen_rules source.configs target.namespace target.relation ≡ o
      → IsOver (expand_rule call source.list target d o)
  rule-IsOver call target d none ready e = tt
  rule-IsOver call target d (some r) ready e =
      some_tree-IsOver _
        (rewrite-IsOver source.list rank call target ready d r (ranked.falls target r e))

  at-IsOver :
      (call : Expansion) (target : SubjectSet) (d : ℕ) (o : Option ConfigSnapshot)
      → ((s : SubjectSet) (e : ℕ) → rank s < rank target → IsOver (call s e))
      → choose source.configs target.namespace ≡ o
      → IsOver (expand_at call source.list target d o)
  at-IsOver call target d none ready e = tt
  at-IsOver call target d (some s) ready e =
      rule-IsOver call target d _ ready (ap (rule_at target.relation) e)

  expand-IsOver :
      (fuel : ℕ) (target : SubjectSet) (d : ℕ)
      → rank target < fuel
      → IsOver (expand source fuel target d)
  unfolding expand
  expand-IsOver zero target d h = absurd (omega arith)
  expand-IsOver (suc fuel) target d h =
      at-IsOver (expand source fuel) target d _ (λ s e lt. expand-IsOver fuel s e (omega arith))
        refl

result_of : {A : Type 0} → (p : Pending A) → IsOver p → (r : Result A) × (p ≡ some r)
result_of none h = absurd h
result_of (some r) h = (r, refl)

-- If some rank of the relations falls along every rule and every stored subject set, an expansion
-- returns a tree, nil or an error as soon as the fuel exceeds the rank of what is expanded.
pub expand_returns :
    (source : Source) (rank : SubjectSet → ℕ) (target : SubjectSet) (fuel d : ℕ)
    → IsRanked source rank
    → rank target < fuel
    → (r : Result (Option SubjectTree)) × (expand source fuel target d ≡ some r)
expand_returns source rank target fuel d ranked h =
    result_of _ (expand-IsOver source rank ranked fuel target d h)
