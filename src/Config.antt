-- ===== src/Config.antt =====
-- Namespace configurations: the messages NamespaceConfig, Relation, Rewrite and SetOperation of
-- api/protos/…/namespace_service.proto, the choice of a relation's rewrite rule
-- (rewriteFromNamespaceConfig) and the validation of a rule (validateRewriteRelations), both of
-- internal/access-controller.go.
pub mod Scope
use access_controller.Prelude.{Option, none, some, List, [], ◌∷◌, if◌then◌else◌}
use access_controller.Map.{Map, get}
use access_controller.Text.{Text, text_eq, text_key}
use access_controller.Status.{Message, reference_undefined, unexpected_operation, unexpected_child}

-- A oneof that is not set is `unset` or `unset_child`. The tupleset of a TupleToSubjectset is a
-- message of its own and may be missing; a missing computed subjectset reads as the empty relation.
mutual
  pub data Rewrite : Type 0 where
    union intersection : Children → Rewrite
    unset : Rewrite

  pub data Child : Type 0 where
    this unset_child : Child
    computed_subjectset : Text → Child
    tuple_to_subjectset : Option Text → Text → Child
    nested : Rewrite → Child

  pub data Children : Type 0 where
    nil : Children
    cons : Child → Children → Children

pub record Relation : Type 0 where
  pub name : Text
  pub rewrite : Option Rewrite

pub record NamespaceConfig : Type 0 where
  pub name : Text
  pub relations : List Relation

-- The rule of a relation that has none: a union with the one child `_this`.
abbrev pub self_rewrite : Rewrite
self_rewrite = union (cons this nil)

abbrev pub or_self : Option Rewrite → Rewrite
or_self none = self_rewrite
or_self (some r) = r

-- the loop of rewriteFromNamespaceConfig
unfoldable pub find_rewrite : Text → List Relation → Option Rewrite
find_rewrite relation [] = none
find_rewrite relation (r ∷ rs) =
    if text_eq r.name relation then some (or_self r.rewrite) else find_rewrite relation rs

-- A nil config has no relations.
unfoldable pub rewrite_from_config : Text → Option NamespaceConfig → Option Rewrite
unfolding find_rewrite
rewrite_from_config relation none = none
rewrite_from_config relation (some config) = find_rewrite relation config.relations

-- The result of validateRewriteRelations. `panics`: `so.TupleToSubjectset.Tupleset.Relation` reads
-- a field through a nil pointer.
pub data Validation : Type 0 where
  valid : Validation
  invalid : Message → Validation
  panics : Validation

-- map[string]struct{}
abbrev pub RelationSet : Type 0
RelationSet = Map Text (Unit {0})

-- go on with the rest if the relation is a key of the set
abbrev pub when_defined : Option (Unit {0}) → Text → Validation → Validation
when_defined (some _) relation rest = rest
when_defined none relation rest = invalid (reference_undefined relation)

-- A nested rule ends the loop: its result is returned.
unfoldable mutual
  pub validate_rewrite : RelationSet → Rewrite → Validation
  validate_rewrite defined (union children) = validate_children defined children
  validate_rewrite defined (intersection children) = validate_children defined children
  validate_rewrite defined unset = invalid unexpected_operation

  pub validate_children : RelationSet → Children → Validation
  validate_children defined nil = valid
  validate_children defined (cons (nested r) rest) = validate_rewrite defined r
  validate_children defined (cons this rest) = validate_children defined rest
  validate_children defined (cons (computed_subjectset relation) rest) =
      let after = validate_children defined rest in
      when_defined (get defined relation) relation after
  validate_children defined (cons (tuple_to_subjectset (some relation) computed) rest) =
      let after = validate_children defined rest in
      when_defined (get defined relation) relation after
  validate_children defined (cons (tuple_to_subjectset none computed) rest) = panics
  validate_children defined (cons unset_child rest) = invalid unexpected_child
