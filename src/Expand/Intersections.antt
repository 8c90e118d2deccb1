-- ===== src/Expand/Intersections.antt =====
-- The tree of an intersection: each tuple of the relation becomes a child of the intersection, not
-- of a union that is a child of it.
use access_controller.Prelude.{ℕ, suc, ◌≡◌, refl, ◌≢◌, inl, Option, none, some, [], ◌∷◌}
use access_controller.Text.{Text}
use access_controller.Config.{Rewrite, intersection, this, nil, cons}
use access_controller.Tuple.{SubjectSet, subject_id, subject_set, InternalRelationTuple}
use access_controller.Result.{returns}
use access_controller.Choose.{ConfigSnapshot}
use access_controller.Check.{TupleReader}
use access_controller.Check.Semantics.{Granted, by_rule, in_intersection, both, end, direct}
use access_controller.Tree.{
  SubjectTree, node, intersection_node, leaf_node, no_trees, ◌▹◌, join_trees,
}
use access_controller.Expand.{
  Source, Expansion, tuples_of, expand_subject, expand_tuples, expand_listed, expand_rewrite,
  expand_children, expand_child, expand_at, expand,
}
use access_controller.Expand.Meaning.{Contains, rule_at, chosen_rules, query_of, Agree}

abbrev listed_rule : Rewrite
listed_rule = intersection (cons this nil)

-- Two users are listed for a relation whose rule is the intersection of the listed tuples alone.
pub record HasTwo (source : Source) (target : SubjectSet) (a b : Text) : Type 0 where
  pub rule : chosen_rules source.configs target.namespace target.relation ≡ some listed_rule
  pub t : InternalRelationTuple
  pub u : InternalRelationTuple
  pub listed : source.list (tuples_of target target.relation) ≡ some (t ∷ u ∷ [])
  pub names_a : t.subject ≡ subject_id a
  pub names_b : u.subject ≡ subject_id b
  pub apart : a ≢ b

-- the tree of the two leaves
abbrev both_leaves : SubjectSet → Text → Text → SubjectTree
both_leaves target a b =
    node intersection_node (subject_set target)
      (node leaf_node (subject_id a) no_trees ▹ node leaf_node (subject_id b) no_trees ▹ no_trees)

module _ (source : Source) (target : SubjectSet) (a b : Text) (two : HasTwo source target a b) where
  at_two :
      (call : Expansion) (d : ℕ) (o : Option ConfigSnapshot)
      → rule_at target.relation o ≡ some listed_rule
      → expand_at call source.list target d o ≡ some (returns (some (both_leaves target a b)))
  unfolding expand_rewrite expand_children expand_child expand_listed expand_tuples expand_subject
      join_trees
  at_two call d none e = cc
  at_two call d (some s) e = rw e (rw two.listed (rw two.names_a (rw two.names_b refl)))

  in_neither : (user : Text) → ¬ Contains (both_leaves target a b) user
  in_neither user (h, (k, end_of_trees)) = two.apart cc

-- If the rule of a relation is the intersection of its tuples alone and two users are listed for
-- an object with a name, the expansion gives a tree that no user is in, although the check grants the relation to the first of
-- them.
pub expand_two-loses :
    (source : Source) (tuples : TupleReader) (target : SubjectSet) (a b : Text) (fuel d : ℕ)
    → target.object ≢ []
    → HasTwo source target a b
    → Agree tuples source.list a
    → Granted tuples (chosen_rules source.configs) (query_of target a)
      × ((t : SubjectTree) × (expand source (suc fuel) target d ≡ some (returns (some t)))
          × ((user : Text) → ¬ Contains t user))
unfolding expand
expand_two-loses source tuples target a b fuel d full two agree =
    let (n, k) =
      (agree.counted target (two.t ∷ two.u ∷ []) full two.listed).1
        (two.t, inl refl, two.names_a) in
    (
      by_rule two.rule (in_intersection (both (direct k) end)),
      (
        both_leaves target a b,
        at_two source target a b two (expand source fuel) d _ two.rule,
        in_neither source target a b two,
      ),
    )
