-- ===== src/Expand/Meaning.antt =====
-- The users that a subject tree stands for, and what is assumed of the tuple store.
use access_controller.Prelude.{
  ℕ, suc, ◌≡◌, refl, ◌≢◌, ◌↔◌, ◌⊎◌, inl, inr, Option, none, some, List, [], ◌∷◌, In,
}
use access_controller.Text.{Text}
use access_controller.Config.{
  Rewrite, union, intersection, unset, Child, this, unset_child, computed_subjectset,
  tuple_to_subjectset, nested, Children, nil, cons, rewrite_from_config,
}
use access_controller.Tuple.{Object, SubjectSet, subject_id, subject_set, InternalRelationTuple}
use access_controller.Result.{returns, fails}
use access_controller.Snapshots.{ConfigStore}
use access_controller.Choose.{ConfigSnapshot, choose}
use access_controller.Check.{TupleReader, subject_query, ellipsis}
use access_controller.Check.Types.{Query}
use access_controller.Check.Semantics.{Rules}
use access_controller.Handler.ListRpc.{TupleLister}
use access_controller.Tree.{
  union_node, intersection_node, leaf_node, no_type, SubjectTree, node, Trees, no_trees, ◌▹◌,
  join_trees,
}
use access_controller.Expand.{Pending, then_trees, tuples_of}

-- The user is in the tree: a leaf names them, some child of a union has them, or each child of an
-- intersection.
abbrev mutual
  pub Contains : SubjectTree → Text → Type 0
  Contains (node leaf_node s ts) user = s ≡ subject_id user
  Contains (node union_node s ts) user = SomeContains ts user
  Contains (node intersection_node s ts) user = EachContains ts user
  Contains (node no_type s ts) user = ⊥

  pub SomeContains : Trees → Text → Type 0
  SomeContains no_trees user = ⊥
  SomeContains (t ▹ ts) user = Contains t user ⊎ SomeContains ts user

  pub EachContains : Trees → Text → Type 0
  EachContains no_trees user = Unit
  EachContains (t ▹ ts) user = Contains t user × EachContains ts user

-- The rule is a union, at every depth, and follows no tupleset.
abbrev mutual
  pub IsUnionRule : Rewrite → Type 0
  IsUnionRule (union cs) = AreUnionChildren cs
  IsUnionRule (intersection cs) = ⊥
  IsUnionRule unset = Unit

  pub AreUnionChildren : Children → Type 0
  AreUnionChildren nil = Unit
  AreUnionChildren (cons c cs) = IsUnionChild c × AreUnionChildren cs

  pub IsUnionChild : Child → Type 0
  IsUnionChild this = Unit
  IsUnionChild unset_child = Unit
  IsUnionChild (computed_subjectset relation) = Unit
  IsUnionChild (tuple_to_subjectset tupleset computed) = ⊥
  IsUnionChild (nested r) = IsUnionRule r

-- The rules at the snapshot that is chosen.
abbrev pub rule_at : Text → Option ConfigSnapshot → Option Rewrite
rule_at relation none = none
rule_at relation (some s) = rewrite_from_config relation s.config

abbrev pub chosen_rules : ConfigStore → Rules
chosen_rules configs namespace relation = rule_at relation (choose configs namespace)

-- The check that asks whether the user has the relation of the target.
abbrev pub query_of : SubjectSet → Text → Query
query_of target user = subject_query target target.relation user

abbrev pub target_object : SubjectSet → Object
target_object target = record { namespace = target.namespace; id = target.object }

-- What the three reading methods of the tuple store have in common: SubjectSets and RowCount show
-- the subject sets and the users of the tuples that ListRelationTuples lists for an object, if no tuple
-- names the relation "..." or a subject set without an object.
pub record Agree (tuples : TupleReader) (list : TupleLister) (user : Text) : Type 0 where
  pub sets :
      (target : SubjectSet) (listed : List InternalRelationTuple)
      → target.object ≢ []
      → list (tuples_of target target.relation) ≡ some listed
      → (ss : List SubjectSet) × (tuples.subject_sets (target_object target) (target.relation ∷ [])
          ≡ some ss)
        × ((s : SubjectSet)
            → In s ss ↔ ((t : InternalRelationTuple) × In t listed × (t.subject ≡ subject_set s)))
  pub counted :
      (target : SubjectSet) (listed : List InternalRelationTuple)
      → target.object ≢ []
      → list (tuples_of target target.relation) ≡ some listed
      → ((n : ℕ) × (tuples.row_count (target_object target) (target.relation ∷ []) user
            ≡ some (suc n)))
        ↔ ((t : InternalRelationTuple) × In t listed × (t.subject ≡ subject_id user))
  pub well_formed :
      (target : SubjectSet) (listed : List InternalRelationTuple) (t : InternalRelationTuple)
      (s : SubjectSet)
      → target.object ≢ []
      → list (tuples_of target target.relation) ≡ some listed
      → In t listed
      → t.subject ≡ subject_set s
      → (s.relation ≢ ellipsis) × (s.object ≢ [])

pub join-cases :
    (ts us : Trees) (user : Text)
    → SomeContains (join_trees ts us) user
    → SomeContains ts user ⊎ SomeContains us user
unfolding join_trees
join-cases no_trees us user h = inr h
join-cases (t ▹ ts) us user (inl h) = inl (inl h)
join-cases (t ▹ ts) us user (inr h) = elim (join-cases ts us user h) [
  | inl k ↦ inl (inr k)
  | inr k ↦ inr k
]

pub join_left :
    (ts us : Trees) (user : Text) → SomeContains ts user → SomeContains (join_trees ts us) user
unfolding join_trees
join_left no_trees us user h = absurd h
join_left (t ▹ ts) us user (inl h) = inl h
join_left (t ▹ ts) us user (inr h) = inr (join_left ts us user h)

pub join_right :
    (ts us : Trees) (user : Text) → SomeContains us user → SomeContains (join_trees ts us) user
unfolding join_trees
join_right no_trees us user h = h
join_right (t ▹ ts) us user h = inr (join_right ts us user h)

-- The subject sets of listed tuples have objects.
abbrev pub HaveObjects : List InternalRelationTuple → Type 0
HaveObjects listed =
    (t : InternalRelationTuple)
    → In t listed
    → (s : SubjectSet) → t.subject ≡ subject_set s
    → s.object ≢ []

-- The parts of a list of trees that was put together.
pub then_trees-returns :
    (a b : Pending Trees) (ts : Trees)
    → then_trees a b ≡ some (returns ts)
    → (us : Trees) × (vs : Trees) × (a ≡ some (returns us))
      × (b ≡ some (returns vs))
      × (ts ≡ join_trees us vs)
then_trees-returns none b ts h = cc
then_trees-returns (some (fails e)) b ts h = cc
then_trees-returns (some (returns us)) none ts h = cc
then_trees-returns (some (returns us)) (some (fails e)) ts h = cc
then_trees-returns (some (returns us)) (some (returns vs)) ts h = (us, vs, refl, refl, cc)
