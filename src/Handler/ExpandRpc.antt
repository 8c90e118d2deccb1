-- ===== src/Handler/ExpandRpc.antt =====
-- AccessController.Expand (internal/access-controller.go), over the expansion of a subject set.
use access_controller.Prelude.{
  ℕ, ◌≡◌, refl, sym, subst, ◌≢◌, ◌↔◌, ◌⊎◌, inl, inr, Option, none, some, [], arith, if◌then◌else◌,
}
use access_controller.Text.{Text, bytes, is_empty}
use access_controller.Status.{status, invalid_argument, field_required}
use access_controller.Result.{returns, fails}
use access_controller.Tuple.{SubjectSet, Subject, subject_id, subject_set, ref_id, subject_to_proto}
use access_controller.Check.{TupleReader}
use access_controller.Check.Semantics.{Granted}
use access_controller.Tree.{
  union_node, intersection_node, leaf_node, no_type, SubjectTree, node, Trees, no_trees, ◌▹◌,
  proto_leaf, proto_union, proto_intersection, proto_unspecified, TreeMessage, message,
  TreeMessages, no_messages, one_message, tree_to_proto, trees_to_proto, type_to_proto,
}
use access_controller.Expand.{Source, Pending, expand}
use access_controller.Expand.Meaning.{
  Contains, SomeContains, EachContains, chosen_rules, query_of, Agree,
}
use access_controller.Expand.Members.{AreUnionRules, expand-Contains}

-- "'%s' is a required field and cannot be empty", or "cannot be nil"
abbrev required : Text → Pending (Option TreeMessage)
required field = some (fails (status invalid_argument (field_required field)))

-- the response, from the tree on; a nil tree is sent as a missing one
abbrev respond : Pending (Option SubjectTree) → Pending (Option TreeMessage)
respond none = none
respond (some (fails e)) = some (fails e)
respond (some (returns none)) = some (returns none)
respond (some (returns (some t))) = some (returns (some (tree_to_proto t)))

-- Expand; the depth it starts with is 12
unfoldable pub expand_rpc : Source → ℕ → Option SubjectSet → Pending (Option TreeMessage)
expand_rpc source fuel none = required (bytes "subjectSet")
expand_rpc source fuel (some s) =
    if is_empty s.namespace
    then required (bytes "subjectSet.namespace")
    else if is_empty s.object
    then required (bytes "subjectSet.object")
    else if is_empty s.relation
    then required (bytes "subjectSet.relation")
    else respond (expand source fuel s 12)

-- The user is in the message of a tree.
abbrev mutual
  pub Sends : TreeMessage → Text → Type 0
  Sends (message proto_leaf s ts) user = s ≡ ref_id user
  Sends (message proto_union s ts) user = SomeSends ts user
  Sends (message proto_intersection s ts) user = EachSends ts user
  Sends (message proto_unspecified s ts) user = ⊥

  SomeSends : TreeMessages → Text → Type 0
  SomeSends no_messages user = ⊥
  SomeSends (one_message t ts) user = Sends t user ⊎ SomeSends ts user

  EachSends : TreeMessages → Text → Type 0
  EachSends no_messages user = Unit
  EachSends (one_message t ts) user = Sends t user × EachSends ts user

ref_id_iff :
    (s : Subject) (user : Text) → (s ≡ subject_id user) ↔ (subject_to_proto s ≡ ref_id user)
unfolding subject_to_proto
ref_id_iff (subject_id id) user = (λ e. cc, λ e. cc)
ref_id_iff (subject_set s) user = (λ e. cc, λ e. cc)

-- A tree and its message have the same users.
mutual
  unfolding tree_to_proto trees_to_proto type_to_proto

  Sends-iff : (t : SubjectTree) (user : Text) → Contains t user ↔ Sends (tree_to_proto t) user
  Sends-iff (node leaf_node s ts) user = ref_id_iff s user
  Sends-iff (node union_node s ts) user = SomeSends-iff ts user
  Sends-iff (node intersection_node s ts) user = EachSends-iff ts user
  Sends-iff (node no_type s ts) user = (λ h. h, λ h. h)

  SomeSends-iff :
      (ts : Trees) (user : Text) → SomeContains ts user ↔ SomeSends (trees_to_proto ts) user
  SomeSends-iff no_trees user = (λ h. h, λ h. h)
  SomeSends-iff (t ▹ ts) user = (
    λ h. elim h [
      | inl k ↦ inl ((Sends-iff t user).0 k)
      | inr k ↦ inr ((SomeSends-iff ts user).0 k)
    ],
    λ h. elim h [
      | inl k ↦ inl ((Sends-iff t user).1 k)
      | inr k ↦ inr ((SomeSends-iff ts user).1 k)
    ],
  )

  EachSends-iff :
      (ts : Trees) (user : Text) → EachContains ts user ↔ EachSends (trees_to_proto ts) user
  EachSends-iff no_trees user = (λ h. h, λ h. h)
  EachSends-iff (t ▹ ts) user = (
    λ h. ((Sends-iff t user).0 h.0, (EachSends-iff ts user).0 h.1),
    λ h. ((Sends-iff t user).1 h.0, (EachSends-iff ts user).1 h.1),
  )

-- What a response was made of.
respond-returns :
    (p : Pending (Option SubjectTree)) (o : Option TreeMessage) (user : Text)
    → respond p ≡ some (returns o)
    → (u : Option SubjectTree) × (p ≡ some (returns u))
      × (((m : TreeMessage) × (o ≡ some m) × Sends m user)
          ↔ ((t : SubjectTree) × (u ≡ some t) × Contains t user))
respond-returns none o user e = cc
respond-returns (some (fails f)) o user e = cc
respond-returns (some (returns none)) o user e = (none, refl, (λ (m, k, h). cc, λ (t, k, h). cc))
respond-returns (some (returns (some t))) o user e = (
  some t,
  refl,
  (
    λ (m, k, h).
        let same : m ≡ tree_to_proto t = cc in
        (t, refl, (Sends-iff t user).1 (subst (λ x. Sends x user) same h)),
    λ (u, k, h).
        let same : u ≡ t = cc in
        (tree_to_proto t, sym cc, (Sends-iff t user).0 (subst (λ x. Contains x user) same h)),
  ),
)

-- Only a request whose subject set has a namespace, an object and a relation is expanded.
pub expand_rpc-returns :
    (source : Source) (fuel : ℕ) (request : Option SubjectSet) (o : Option TreeMessage)
    → expand_rpc source fuel request ≡ some (returns o)
    → (s : SubjectSet) × (request ≡ some s)
      × (s.namespace ≢ [])
      × (s.object ≢ [])
      × (s.relation ≢ [])
      × (respond (expand source fuel s 12) ≡ some (returns o))
unfolding expand_rpc
expand_rpc-returns source fuel none o e = cc
expand_rpc-returns source fuel (some s) o e =
    (s, refl, ground arith, ground arith, ground arith, ground arith)

-- A response to Expand holds the users who are granted the relation of the request's subject set,
-- and no others, if no rule of the namespaces is an intersection or follows a tupleset and the
-- methods of the tuple store agree; and only a request whose subject set has a namespace, an object
-- and a relation is answered by a response.
pub expand_rpc-Sends :
    (source : Source) (tuples : TupleReader) (user : Text) (fuel : ℕ) (request : Option SubjectSet)
    (o : Option TreeMessage)
    → AreUnionRules source
    → Agree tuples source.list user
    → expand_rpc source fuel request ≡ some (returns o)
    → (s : SubjectSet) × (request ≡ some s)
      × (s.namespace ≢ [])
      × (s.object ≢ [])
      × (s.relation ≢ [])
      × (((m : TreeMessage) × (o ≡ some m) × Sends m user)
          ↔ Granted tuples (chosen_rules source.configs) (query_of s user))
expand_rpc-Sends source tuples user fuel request o union_only agree e =
    let (s, present, namespace, object, relation, answer) =
      expand_rpc-returns source fuel request o e in
    let (u, k, same) = respond-returns (expand source fuel s 12) o user answer in
    let exact = expand-Contains source tuples user fuel s 12 u object union_only agree k in
    (s, present, namespace, object, relation, (λ h. exact.0 (same.0 h), λ g. same.1 (exact.1 g)))
