-- ===== src/Expand.antt =====
-- AccessController.expand and expandWithRewrite (internal/access-controller.go): the tree of the
-- subjects that have a relation to an object.
--
-- Like `check`, the recursion follows stored tuples and need not end, so it runs on fuel, and `none`
-- says that the fuel ran out. Each call chooses its snapshot anew: the timestamp that it puts into
-- the context is not read.
pub mod Meaning
pub mod Parts
pub mod Sound
pub mod Complete
pub mod Depth
pub mod Intersections
pub mod Ends
pub mod Members
use access_controller.Prelude.{
  ℕ, zero, suc, ◌+◌, ◌-◌, Option, none, some, List, [], ◌∷◌, if◌then◌else◌,
}
use Prim.Native.Nat.{◌%◌, ◌^◌}
use access_controller.Text.{Text, text_eq}
use access_controller.Status.{Failure, internal_status}
use access_controller.Result.{Result, returns, fails}
use access_controller.Config.{
  Rewrite, union, intersection, unset, Child, this, unset_child, computed_subjectset,
  tuple_to_subjectset, nested, Children, nil, cons, rewrite_from_config,
}
use access_controller.Tuple.{SubjectSet, Subject, subject_id, subject_set, InternalRelationTuple}
use access_controller.Snapshots.{ConfigStore}
use access_controller.Choose.{ConfigSnapshot, choose}
use access_controller.Check.{ellipsis, tupleset_relation, undefined_namespace}
use access_controller.Handler.ListRpc.{TupleQuery, TupleLister}
use access_controller.Tree.{
  NodeType, union_node, intersection_node, leaf_node, no_type, SubjectTree, node, Trees, no_trees,
  ◌▹◌, join_trees,
}

-- The part of AccessController that an expansion reads.
pub record Source : Type 0 where
  pub configs : ConfigStore
  pub list : TupleLister

-- A result, or none while the call still runs.
abbrev pub Pending : Type 0 → Type 0
Pending A = Option (Result A)

-- `a.expand`, by the object and the relation that is expanded and the depth; a nil tree is `none`
abbrev pub Expansion : Type 0
Expansion = SubjectSet → ℕ → Pending (Option SubjectTree)

-- depth-1, of a uint
abbrev pub less_deep : ℕ → ℕ
less_deep depth = (depth + (2 ^ 64 - 1)) % 2 ^ 64

-- one child's trees, then those of the children behind it: an error ends the loop
abbrev pub then_trees : Pending Trees → Pending Trees → Pending Trees
then_trees none rest = none
then_trees (some (fails e)) rest = some (fails e)
then_trees (some (returns ts)) none = none
then_trees (some (returns ts)) (some (fails e)) = some (fails e)
then_trees (some (returns ts)) (some (returns us)) = some (returns (join_trees ts us))

-- append the tree, unless it is nil
abbrev pub at_most_one : Pending (Option SubjectTree) → Pending Trees
at_most_one none = none
at_most_one (some (fails e)) = some (fails e)
at_most_one (some (returns none)) = some (returns no_trees)
at_most_one (some (returns (some t))) = some (returns (t ▹ no_trees))

abbrev pub just_one : Pending SubjectTree → Pending Trees
just_one none = none
just_one (some (fails e)) = some (fails e)
just_one (some (returns t)) = some (returns (t ▹ no_trees))

abbrev pub with_children : NodeType → Subject → Pending Trees → Pending SubjectTree
with_children type subject none = none
with_children type subject (some (fails e)) = some (fails e)
with_children type subject (some (returns ts)) = some (returns (node type subject ts))

-- "..." stands for the relation that is expanded
abbrev pub or_own : Text → Text → Text
or_own own relation = if text_eq relation ellipsis then own else relation

-- the trees of one tuple's subject
unfoldable pub expand_subject : Expansion → Text → ℕ → Subject → Pending Trees
expand_subject call own depth (subject_id id) =
    some (returns (node leaf_node (subject_id id) no_trees ▹ no_trees))
expand_subject call own depth (subject_set s) =
    at_most_one (call (record s { relation = or_own own s.relation }) (less_deep depth))

-- the loops over the tuples
unfoldable pub expand_tuples : Expansion → Text → ℕ → List InternalRelationTuple → Pending Trees
expand_tuples call own depth [] = some (returns no_trees)
expand_tuples call own depth (t ∷ ts) =
    then_trees (expand_subject call own depth t.subject) (expand_tuples call own depth ts)

-- … of a relation of the object, once they are listed
unfoldable pub expand_listed :
    Expansion → Text → ℕ → Option (List InternalRelationTuple) → Pending Trees
expand_listed call own depth none = some (fails internal_status)
expand_listed call own depth (some tuples) = expand_tuples call own depth tuples

-- the query for the tuples of one relation
abbrev pub tuples_of : SubjectSet → Text → TupleQuery
tuples_of target relation = record {
  namespace = target.namespace;
  object = target.object;
  relations = relation ∷ [];
  subject = none;
}

-- expandWithRewrite; a nested rule's tree has the same subject
unfoldable mutual
  pub expand_rewrite : Expansion → TupleLister → SubjectSet → ℕ → Rewrite → Pending SubjectTree
  expand_rewrite call list target depth (union children) =
      with_children union_node (subject_set target)
        (expand_children call list target depth children)
  expand_rewrite call list target depth (intersection children) =
      with_children intersection_node (subject_set target)
        (expand_children call list target depth children)
  expand_rewrite call list target depth unset =
      some (returns (node no_type (subject_set target) no_trees))

  pub expand_children : Expansion → TupleLister → SubjectSet → ℕ → Children → Pending Trees
  expand_children call list target depth nil = some (returns no_trees)
  expand_children call list target depth (cons child rest) =
      then_trees (expand_child call list target depth child)
        (expand_children call list target depth rest)

  pub expand_child : Expansion → TupleLister → SubjectSet → ℕ → Child → Pending Trees
  expand_child call list target depth (nested rule) =
      just_one (expand_rewrite call list target depth rule)
  expand_child call list target depth this =
      expand_listed call target.relation depth (list (tuples_of target target.relation))
  expand_child call list target depth (computed_subjectset relation) =
      at_most_one (call (record target { relation = relation }) (less_deep depth))
  expand_child call list target depth (tuple_to_subjectset tupleset computed) =
      expand_listed call target.relation depth
        (list (tuples_of target (or_own target.relation (tupleset_relation tupleset))))
  expand_child call list target depth unset_child = some (returns no_trees)

abbrev pub some_tree : Pending SubjectTree → Pending (Option SubjectTree)
some_tree none = none
some_tree (some (fails e)) = some (fails e)
some_tree (some (returns t)) = some (returns (some t))

-- from the rewrite rule on
abbrev pub expand_rule :
    Expansion → TupleLister → SubjectSet → ℕ → Option Rewrite → Pending (Option SubjectTree)
expand_rule call list target depth none = some (returns none)
expand_rule call list target depth (some rule) =
    some_tree (expand_rewrite call list target depth rule)

abbrev pub expand_at :
    Expansion → TupleLister → SubjectSet → ℕ → Option ConfigSnapshot → Pending (Option SubjectTree)
expand_at call list target depth none = some (fails (undefined_namespace target.namespace))
expand_at call list target depth (some s) =
    expand_rule call list target depth (rewrite_from_config target.relation s.config)

-- expand
unfoldable pub expand : Source → ℕ → Expansion
expand source zero target depth = none
expand source (suc fuel) target depth =
    expand_at (expand source fuel) source.list target depth (choose source.configs target.namespace)
