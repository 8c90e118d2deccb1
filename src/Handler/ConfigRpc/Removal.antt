-- ===== src/Handler/ConfigRpc/Removal.antt =====
-- What a WriteConfig that succeeds has checked, and what one that fails leaves behind.
use access_controller.Prelude.{
  ℕ, ◌≡◌, refl, subst, ◌⊎◌, inl, inr, Option, none, some, List, [], ◌∷◌, map, In-map, arith,
  Bool-cases, Option-cases, In,
}
use access_controller.Map.{Map, get, put, keys, In-of_get}
use access_controller.Map.Entries.{keys-put, put-keys_old, put-keys_new}
use access_controller.Text.{Text, text_key, is_empty}
use access_controller.Config.{
  Relation, NamespaceConfig, RelationSet, Validation, valid, invalid, panics,
}
use access_controller.Handler.ConfigRpc.{
  TxnError, config_failure, doesnt_exist, other_error, config_found, Manager, relation_set, removed,
  written, validate_relations, end_transaction, wrap_transaction, check_references,
  remove_relations, change_from, change_config, respond, write_validated, write_config_rpc,
}

abbrev pub names : List Relation → List Text
names rs = map (λ r. r.name) rs

relation_set-keys_old :
    (rs : List Relation) (acc : RelationSet) (x : Text)
    → In x (keys acc)
    → In x (keys (relation_set rs acc))
unfolding relation_set
relation_set-keys_old [] acc x h = h
relation_set-keys_old (r ∷ rs) acc x h =
    relation_set-keys_old rs (put acc r.name tt) x (put-keys_old acc r.name tt x h)

names-keys :
    (rs : List Relation) (acc : RelationSet) (x : Text)
    → In x (names rs)
    → In x (keys (relation_set rs acc))
unfolding relation_set
names-keys [] acc x h = absurd h
names-keys (r ∷ rs) acc x (inl e) =
    relation_set-keys_old rs (put acc r.name tt) x (rw e (put-keys_new acc r.name tt))
names-keys (r ∷ rs) acc x (inr h) = names-keys rs (put acc r.name tt) x h

keys-names :
    (rs : List Relation) (acc : RelationSet) (x : Text)
    → In x (keys (relation_set rs acc))
    → In x (names rs) ⊎ In x (keys acc)
unfolding relation_set
keys-names [] acc x h = inr h
keys-names (r ∷ rs) acc x h = elim (keys-names rs (put acc r.name tt) x h) [
  | inl k ↦ inl (inr k)
  | inr k ↦ elim (keys-put acc r.name tt x k) [ inl e ↦ inl (inl e) | inr m ↦ inr m ]
]

In-removed :
    (current proposed : RelationSet) (x : Text)
    → In x (keys current)
    → get proposed x ≡ none
    → In x (removed current proposed)
unfolding removed
In-removed [] proposed x h e = absurd h
In-removed ((name, u) ∷ current) proposed x (inl k) e =
    let missing : get proposed name ≡ none = subst (λ y. get proposed y ≡ none) k e in
    rw missing (inl k)
In-removed ((name, u) ∷ current) proposed x (inr h) e = elim (Option-cases (get proposed name)) [
  | inl k ↦ rw k (inr (In-removed current proposed x h e))
  | inr (v, k) ↦ rw k (In-removed current proposed x h e)
]

-- What the code relies on in LookupRelationReferencesByCount: a relation that it is asked for and
-- that some tuple refers to is a key of the map that it returns.
pub record FindsReferences {S : Type 0} (m : Manager S) (IsReferenced : S → Text → Text → Type 0)
    : Type 0 where
  pub finds :
      (s : S) (namespace relation : Text) (relations : List Text) (found : Map Text ℕ)
      → IsReferenced s namespace relation
      → In relation relations
      → m.references s namespace relations ≡ some found
      → In relation (keys found)

module _ {S : Type 0} (m : Manager S) where
  respond-written :
      (t : Option TxnError × S) (s' : S) → respond m t ≡ (written, s') → t ≡ (none, s')
  unfolding respond
  respond-written (none, s) s' h = ground arith
  respond-written (some (config_failure t message), s) s' h = cc
  respond-written (some doesnt_exist, s) s' h = cc
  respond-written (some other_error, s) s' h = cc

  end_transaction-none :
      (t : Option TxnError × S) (s s' : S) → end_transaction m s t ≡ (none, s') → t ≡ (none, s')
  unfolding end_transaction
  end_transaction-none (none, u) s s' h = ground arith
  end_transaction-none (some e, u) s s' h = cc

  wrap_transaction-none :
      (fn : S → Option TxnError × S) (s s' : S)
      → wrap_transaction m fn s ≡ (none, s')
      → fn s ≡ (none, s')
  unfolding wrap_transaction
  wrap_transaction-none fn s s' h = elim (Bool-cases (m.begins s)) [
    | inl b ↦ end_transaction-none (fn s) s s' (rw b at h)
    | inr b ↦ absurd (ground arith)
  ]

  write_validated-written :
      (config : NamespaceConfig) (s s' : S) (v : Validation)
      → write_validated m config s v ≡ (written, s')
      → (v ≡ valid) × (change_config m config s ≡ (none, s'))
  unfolding write_validated
  write_validated-written config s s' valid h = (
    refl,
    wrap_transaction-none (change_config m config) s s'
        (respond-written (wrap_transaction m (change_config m config) s) s' h),
  )
  write_validated-written config s s' (invalid message) h = cc
  write_validated-written config s s' panics h = cc

  pub write_config_rpc-written :
      (config : NamespaceConfig) (s s' : S)
      → write_config_rpc m (some config) s ≡ (written, s')
      → (validate_relations (relation_set config.relations []) config config.relations ≡ valid)
        × (change_config m config s ≡ (none, s'))
  unfolding write_config_rpc
  write_config_rpc-written config s s' h = elim (Bool-cases (is_empty config.name)) [
    | inl b ↦ absurd (ground arith)
    | inr b ↦
        write_validated-written config s s'
          (validate_relations (relation_set config.relations []) config config.relations)
          (rw b at h)
  ]

  module _ (IsReferenced : S → Text → Text → Type 0) (laws : FindsReferences m IsReferenced) where
    check_references-none :
        (config : NamespaceConfig) (s s' : S) (ns : List Text) (o : Option (Map Text ℕ)) (x : Text)
        → m.references s config.name ns ≡ o
        → check_references m config s o ≡ (none, s')
        → In x ns
        → ¬ IsReferenced s config.name x
    unfolding check_references
    check_references-none config s s' ns none x e h k = cc
    check_references-none config s s' ns (some []) x e h k =
        λ r. laws.finds s config.name x ns [] r k e
    check_references-none config s s' ns (some (r ∷ rs)) x e h k = cc

    remove_relations-none :
        (config : NamespaceConfig) (s s' : S) (ns : List Text) (x : Text)
        → remove_relations m config s ns ≡ (none, s')
        → In x ns
        → ¬ IsReferenced s config.name x
    unfolding remove_relations
    remove_relations-none config s s' [] x h k = absurd k
    remove_relations-none config s s' (n ∷ ns) x h k =
        check_references-none config s s' (n ∷ ns) _ x refl h k

    found-keeps :
        (config current : NamespaceConfig) (s s' : S) (x : Text)
        → change_from m config s (config_found current) ≡ (none, s')
        → In x (names current.relations)
        → IsReferenced s config.name x
        → In x (names config.relations)
    unfolding change_from
    found-keeps config current s s' x h k r =
        let proposed = relation_set config.relations [] in
        elim (Option-cases (get proposed x)) [
          | inl missing ↦ absurd (
              remove_relations-none config s s'
                (removed (relation_set current.relations []) proposed) x h
                (In-removed (relation_set current.relations []) proposed x
                  (names-keys current.relations [] x k) missing)
                r)
          | inr (u, there) ↦
              elim (keys-names config.relations [] x
                (In-map (λ p. p.0) (x, u) proposed (In-of_get proposed x u there))) [
                  | inl h' ↦ h'
                  | inr h' ↦ absurd h'
                ]
        ]

    change_config-keeps :
        (config current : NamespaceConfig) (s s' : S) (x : Text)
        → change_config m config s ≡ (none, s')
        → m.get_config s config.name ≡ config_found current
        → In x (names current.relations)
        → IsReferenced s config.name x
        → In x (names config.relations)
    unfolding change_config
    change_config-keeps config current s s' x h e = found-keeps config current s s' x (rw e at h)

-- If WriteConfig succeeds, each relation of the current config that some stored tuple refers to is a
-- relation of the new config too, provided that the manager's lookup finds the references.
pub write_config_rpc-keeps :
    {S : Type 0} (m : Manager S) (IsReferenced : S → Text → Text → Type 0)
    → FindsReferences m IsReferenced
    → (config current : NamespaceConfig) (s s' : S) (relation : Text)
    → write_config_rpc m (some config) s ≡ (written, s')
    → m.get_config s config.name ≡ config_found current
    → In relation (names current.relations)
    → IsReferenced s config.name relation
    → In relation (names config.relations)
write_config_rpc-keeps m IsReferenced laws config current s s' relation h =
    change_config-keeps m IsReferenced laws config current s s' relation
      (write_config_rpc-written m config s s' h).1
