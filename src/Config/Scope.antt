-- ===== src/Config/Scope.antt =====
-- What validateRewriteRelations accepts, against an independent reading: each relation that a rewrite
-- rule references is defined, save the one that is computed for the subjects of a tupleset.
use access_controller.Prelude.{◌≡◌, refl, ap, ◌↔◌, Option, none, some}
use access_controller.Map.{get}
use access_controller.Text.{Text, text_key}
use access_controller.Config.{
  Rewrite, union, intersection, unset, this, unset_child, computed_subjectset, tuple_to_subjectset,
  nested, Children, nil, cons, Validation, valid, RelationSet, validate_rewrite, validate_children,
  when_defined,
}

abbrev pub IsDefined : RelationSet → Text → Type 0
IsDefined defined relation = get defined relation ≡ some tt

-- Every oneof is set, and the relation of each computed subject set and of each tupleset, at any depth,
-- is defined. The relation that is computed for the subjects of a tupleset may be any.
unfoldable mutual
  pub IsScoped : RelationSet → Rewrite → Type 0
  IsScoped defined (union children) = AreScoped defined children
  IsScoped defined (intersection children) = AreScoped defined children
  IsScoped defined unset = ⊥

  pub AreScoped : RelationSet → Children → Type 0
  AreScoped defined nil = Unit
  AreScoped defined (cons (nested r) rest) = IsScoped defined r × AreScoped defined rest
  AreScoped defined (cons this rest) = AreScoped defined rest
  AreScoped defined (cons (computed_subjectset relation) rest) =
      IsDefined defined relation × AreScoped defined rest
  AreScoped defined (cons (tuple_to_subjectset (some relation) computed) rest) =
      IsDefined defined relation × AreScoped defined rest
  AreScoped defined (cons (tuple_to_subjectset none computed) rest) = ⊥
  AreScoped defined (cons unset_child rest) = ⊥

-- A nested rule stands only as the last child.
unfoldable mutual
  pub IsLastNested : Rewrite → Type 0
  IsLastNested (union children) = AreLastNested children
  IsLastNested (intersection children) = AreLastNested children
  IsLastNested unset = Unit

  pub AreLastNested : Children → Type 0
  AreLastNested nil = Unit
  AreLastNested (cons (nested r) nil) = IsLastNested r
  AreLastNested (cons (nested r) (cons c rest)) = ⊥
  AreLastNested (cons _ rest) = AreLastNested rest

defined_valid :
    {o : Option (Unit {0})} (relation : Text) {rest : Validation}
    → o ≡ some tt
    → rest ≡ valid
    → when_defined o relation rest ≡ valid
defined_valid relation e h = rw e h

valid_defined :
    (o : Option (Unit {0})) (relation : Text) {rest : Validation}
    → when_defined o relation rest ≡ valid
    → (o ≡ some tt) × (rest ≡ valid)
valid_defined (some u) relation h = (refl, h)
valid_defined none relation h = cc

mutual
  unfolding validate_rewrite IsScoped

  scoped-valid : (d : RelationSet) (r : Rewrite) → IsScoped d r → validate_rewrite d r ≡ valid
  scoped-valid d (union cs) h = children_scoped-valid d cs h
  scoped-valid d (intersection cs) h = children_scoped-valid d cs h
  scoped-valid d unset h = absurd h

  children_scoped-valid :
      (d : RelationSet) (cs : Children) → AreScoped d cs → validate_children d cs ≡ valid
  children_scoped-valid d nil h = refl
  children_scoped-valid d (cons (nested r) rest) h = scoped-valid d r h.0
  children_scoped-valid d (cons this rest) h = children_scoped-valid d rest h
  children_scoped-valid d (cons (computed_subjectset relation) rest) h =
      defined_valid relation h.0 (children_scoped-valid d rest h.1)
  children_scoped-valid d (cons (tuple_to_subjectset (some relation) c) rest) h =
      defined_valid relation h.0 (children_scoped-valid d rest h.1)
  children_scoped-valid d (cons (tuple_to_subjectset none c) rest) h = absurd h
  children_scoped-valid d (cons unset_child rest) h = absurd h

mutual
  unfolding validate_rewrite IsScoped IsLastNested

  valid-IsScoped :
      (d : RelationSet) (r : Rewrite) → IsLastNested r → validate_rewrite d r ≡ valid → IsScoped d r
  valid-IsScoped d (union cs) n h = children_valid-scoped d cs n h
  valid-IsScoped d (intersection cs) n h = children_valid-scoped d cs n h
  valid-IsScoped d unset n h = cc

  children_valid-scoped :
      (d : RelationSet) (cs : Children)
      → AreLastNested cs
      → validate_children d cs ≡ valid
      → AreScoped d cs
  children_valid-scoped d nil n h = tt
  children_valid-scoped d (cons (nested r) nil) n h = (valid-IsScoped d r n h, tt)
  children_valid-scoped d (cons (nested r) (cons c rest)) n h = absurd n
  children_valid-scoped d (cons this rest) n h = children_valid-scoped d rest n h
  children_valid-scoped d (cons (computed_subjectset relation) rest) n h =
      let (defined, after) = valid_defined (get d relation) relation h in
      (defined, children_valid-scoped d rest n after)
  children_valid-scoped d (cons (tuple_to_subjectset (some relation) c) rest) n h =
      let (defined, after) = valid_defined (get d relation) relation h in
      (defined, children_valid-scoped d rest n after)
  children_valid-scoped d (cons (tuple_to_subjectset none c) rest) n h = cc
  children_valid-scoped d (cons unset_child rest) n h = cc

-- If nested rules stand last, validation accepts a rule exactly when, at every depth, its oneofs are set
-- and the relations of its computed subject sets and of its tuplesets are defined; the relations that
-- are computed for the subjects of a tupleset may be undefined.
pub validate_rewrite_iff :
    (d : RelationSet) (r : Rewrite) → IsLastNested r → (validate_rewrite d r ≡ valid) ↔ IsScoped d r
validate_rewrite_iff d r n = (valid-IsScoped d r n, scoped-valid d r)

-- A valid nested rule hides each child behind it: a union in which it is followed by a reference to
-- a relation that is not defined is accepted, though it is not well scoped.
pub nested_hides_undefined :
    (d : RelationSet) (r : Rewrite) (relation : Text) (rest : Children)
    → validate_rewrite d r ≡ valid
    → get d relation ≡ none
    → (validate_rewrite d (union (cons (nested r) (cons (computed_subjectset relation) rest)))
        ≡ valid)
      × (¬ (IsScoped d (union (cons (nested r) (cons (computed_subjectset relation) rest)))))
unfolding validate_rewrite IsScoped
nested_hides_undefined d r relation rest h u = (h, λ s. cc (u, s.1.0))

-- The rule with other relations computed for the subjects of its tuplesets.
unfoldable mutual
  pub map_followed : (Text → Text) → Rewrite → Rewrite
  map_followed f (union children) = union (map_followed_children f children)
  map_followed f (intersection children) = intersection (map_followed_children f children)
  map_followed f unset = unset

  pub map_followed_children : (Text → Text) → Children → Children
  map_followed_children f nil = nil
  map_followed_children f (cons (nested r) rest) =
      cons (nested (map_followed f r)) (map_followed_children f rest)
  map_followed_children f (cons (tuple_to_subjectset tupleset computed) rest) =
      cons (tuple_to_subjectset tupleset (f computed)) (map_followed_children f rest)
  map_followed_children f (cons this rest) = cons this (map_followed_children f rest)
  map_followed_children f (cons (computed_subjectset relation) rest) =
      cons (computed_subjectset relation) (map_followed_children f rest)
  map_followed_children f (cons unset_child rest) = cons unset_child (map_followed_children f rest)

mutual
  unfolding validate_rewrite map_followed

  rewrite_same :
      (d : RelationSet) (f : Text → Text) (r : Rewrite)
      → validate_rewrite d (map_followed f r) ≡ validate_rewrite d r
  rewrite_same d f (union cs) = children_same d f cs
  rewrite_same d f (intersection cs) = children_same d f cs
  rewrite_same d f unset = refl

  children_same :
      (d : RelationSet) (f : Text → Text) (cs : Children)
      → validate_children d (map_followed_children f cs) ≡ validate_children d cs
  children_same d f nil = refl
  children_same d f (cons (nested r) rest) = rewrite_same d f r
  children_same d f (cons this rest) = children_same d f rest
  children_same d f (cons (computed_subjectset relation) rest) =
      ap (when_defined (get d relation) relation) (children_same d f rest)
  children_same d f (cons (tuple_to_subjectset (some relation) c) rest) =
      ap (when_defined (get d relation) relation) (children_same d f rest)
  children_same d f (cons (tuple_to_subjectset none c) rest) = refl
  children_same d f (cons unset_child rest) = refl

-- Validation never looks at the relations that are computed for the subjects of a tupleset: whatever
-- relations take their place, at every depth, the result is the same, so a rule may refer to an
-- undefined relation there.
pub validate_rewrite-map_followed :
    (d : RelationSet) (f : Text → Text) (r : Rewrite)
    → validate_rewrite d (map_followed f r) ≡ validate_rewrite d r
validate_rewrite-map_followed d f r = rewrite_same d f r
