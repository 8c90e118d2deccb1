-- ===== src/Handler/ConfigRpc/Scoped.antt =====
-- The rules of a config that WriteConfig has accepted.
use access_controller.Prelude.{◌≡◌, refl, sym, some, List, [], ◌∷◌, Bool-cases, inl, inr, In}
use access_controller.Text.{Text, text_eq, text_eq_iff}
use access_controller.Config.{
  Rewrite, Relation, NamespaceConfig, RelationSet, find_rewrite, rewrite_from_config, Validation,
  valid, invalid, panics, validate_rewrite,
}
use access_controller.Config.Scope.{IsScoped, IsLastNested, validate_rewrite_iff}
use access_controller.Handler.ConfigRpc.{
  Manager, relation_set, rule_of, go_on, validate_relations, written, write_config_rpc,
}
use access_controller.Handler.ConfigRpc.Removal.{names, write_config_rpc-written}

find_rewrite-In :
    (name : Text) (rs : List Relation) (rule : Rewrite)
    → find_rewrite name rs ≡ some rule
    → In name (names rs)
unfolding find_rewrite
find_rewrite-In name [] rule h = cc
find_rewrite-In name (r ∷ rs) rule h = elim (Bool-cases (text_eq r.name name)) [
  | inl b ↦ inl (sym ((text_eq_iff r.name name).0 b))
  | inr b ↦ inr (find_rewrite-In name rs rule (rw b at h))
]

go_on-valid : (v rest : Validation) → go_on v rest ≡ valid → (v ≡ valid) × (rest ≡ valid)
go_on-valid valid rest h = (refl, h)
go_on-valid (invalid message) rest h = cc
go_on-valid panics rest h = cc

-- Every relation's rule is validated.
validate_relations-valid :
    (d : RelationSet) (config : NamespaceConfig) (rs : List Relation) (name : Text)
    → validate_relations d config rs ≡ valid
    → In name (names rs)
    → validate_rewrite d (rule_of (rewrite_from_config name (some config))) ≡ valid
unfolding validate_relations
validate_relations-valid d config [] name h k = absurd k
validate_relations-valid d config (r ∷ rs) name h (inl e) =
    rw e
      (go_on-valid (validate_rewrite d (rule_of (rewrite_from_config r.name (some config))))
        (validate_relations d config rs) h).0
validate_relations-valid d config (r ∷ rs) name h (inr k) =
    validate_relations-valid d config rs name
      (go_on-valid (validate_rewrite d (rule_of (rewrite_from_config r.name (some config))))
        (validate_relations d config rs) h).1
      k

config_rule_valid :
    (config : NamespaceConfig) (name : Text) (rule : Rewrite)
    → validate_relations (relation_set config.relations []) config config.relations ≡ valid
    → rewrite_from_config name (some config) ≡ some rule
    → validate_rewrite (relation_set config.relations []) rule ≡ valid
unfolding rewrite_from_config
config_rule_valid config name rule h e = rw e at (
    validate_relations-valid (relation_set config.relations []) config config.relations name h
      (find_rewrite-In name config.relations rule e))

-- If WriteConfig succeeds, then in every rule by which a check of the namespace is evaluated and in which
-- nested rules stand last, at every depth, the oneofs are set and the relations of computed subject sets
-- and of tuplesets are relations of the config; the relations that are computed for the subjects of a
-- tupleset may be any.
pub write_config_rpc-IsScoped :
    {S : Type 0} (m : Manager S) (config : NamespaceConfig) (s s' : S) (name : Text)
    (rule : Rewrite)
    → write_config_rpc m (some config) s ≡ (written, s')
    → rewrite_from_config name (some config) ≡ some rule
    → IsLastNested rule
    → IsScoped (relation_set config.relations []) rule
write_config_rpc-IsScoped m config s s' name rule h e nested =
    (validate_rewrite_iff (relation_set config.relations []) rule nested).0
      (config_rule_valid config name rule (write_config_rpc-written m config s s' h).0 e)
