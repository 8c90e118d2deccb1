-- ===== src/Handler/ConfigRpc.antt =====
-- AccessController.WriteConfig and ReadConfig (internal/access-controller.go), over a namespace
-- manager, and WrapTransaction of internal/namespace-manager/postgres/manager.go.
pub mod Removal
pub mod Scoped
pub mod Written
use access_controller.Prelude.{ℕ, Bool, Option, none, some, List, [], ◌∷◌, if◌then◌else◌}
use access_controller.Map.{Map, get, put, keys}
use access_controller.Text.{Text, text_key, bytes, is_empty}
use access_controller.Status.{
  Message, Failure, status, invalid_argument, not_found, field_required, namespace_not_found,
  relations_referenced, internal_status, ConfigErrorType, namespace_update_failed_precondition,
  to_status,
}
use access_controller.Result.{Result, returns, fails}
use access_controller.Config.{
  Rewrite, unset, Relation, NamespaceConfig, RelationSet, rewrite_from_config, Validation, valid,
  invalid, panics, validate_rewrite,
}

-- An error of a namespace manager or of a transaction's body: a NamespaceConfigError,
-- ErrNamespaceDoesntExist, or any other.
pub data TxnError : Type 0 where
  config_failure : ConfigErrorType → Message → TxnError
  doesnt_exist other_error : TxnError

pub data Lookup : Type 0 where
  config_found : NamespaceConfig → Lookup
  lookup_failed : TxnError → Lookup

-- A NamespaceManager on a database in some state (GetConfig, UpsertConfig,
-- LookupRelationReferencesByCount), and whether the database begins and commits a transaction.
pub record Manager {ℓ} (S : Type ℓ) : Type ℓ where
  pub get_config : S → Text → Lookup
  pub upsert : S → NamespaceConfig → Option S
  pub references : S → Text → List Text → Option (Map Text ℕ)
  pub begins : S → Bool
  pub commits : S → Bool

-- map[string]struct{} of the relations' names
unfoldable pub relation_set : List Relation → RelationSet → RelationSet
relation_set [] names = names
relation_set (r ∷ rs) names = relation_set rs (put names r.name tt)

abbrev unless_defined : Option (Unit {0}) → Text → List Text → List Text
unless_defined none name rest = name ∷ rest
unless_defined (some _) name rest = rest

-- the relations of the current config that the proposed one does not have
unfoldable pub removed : RelationSet → RelationSet → List Text
removed [] proposed = []
removed ((name, _) ∷ current) proposed =
    unless_defined (get proposed name) name (removed current proposed)

-- a nil rewrite has no operation
abbrev rule_of : Option Rewrite → Rewrite
rule_of none = unset
rule_of (some r) = r

abbrev go_on : Validation → Validation → Validation
go_on valid rest = rest
go_on v rest = v

-- the loop that validates the rules
unfoldable pub validate_relations : RelationSet → NamespaceConfig → List Relation → Validation
validate_relations proposed config [] = valid
validate_relations proposed config (r ∷ rs) =
    go_on (validate_rewrite proposed (rule_of (rewrite_from_config r.name (some config))))
      (validate_relations proposed config rs)

-- What WriteConfig does: `crashed` is a panic of the validation.
pub data Response : Type 0 where
  written crashed : Response
  refused : Failure → Response

-- "'%s' is a required field and cannot be empty", or "cannot be nil"
abbrev required : Text → Failure
required field = status invalid_argument (field_required field)

module _ {S : Type 0} (m : Manager S) where
  -- the end of WrapTransaction, from the result of `fn` on: roll back, or commit
  end_transaction : S → Option TxnError × S → Option TxnError × S
  end_transaction s (some e, s') = (some e, s)
  end_transaction s (none, s') = if m.commits s' then (none, s') else (some other_error, s)

  -- WrapTransaction; `none` is the nil error
  unfoldable pub wrap_transaction : (S → Option TxnError × S) → S → Option TxnError × S
  unfolding end_transaction
  wrap_transaction fn s = if m.begins s then end_transaction s (fn s) else (some other_error, s)

  save : S → Option S → Option TxnError × S
  save s none = (some other_error, s)
  save s (some s') = (none, s')

  -- the references to the relations that are removed, once they are looked up
  check_references : NamespaceConfig → S → Option (Map Text ℕ) → Option TxnError × S
  unfolding save
  check_references config s none = (some other_error, s)
  check_references config s (some []) = save s (m.upsert s config)
  check_references config s (some (r ∷ rs)) = (
    some (
        config_failure namespace_update_failed_precondition (relations_referenced (keys (r ∷ rs)))),
    s,
  )

  remove_relations : NamespaceConfig → S → List Text → Option TxnError × S
  unfolding check_references
  remove_relations config s [] = save s (m.upsert s config)
  remove_relations config s (n ∷ ns) =
      check_references config s (m.references s config.name (n ∷ ns))

  change_from : NamespaceConfig → S → Lookup → Option TxnError × S
  unfolding remove_relations
  change_from config s (lookup_failed doesnt_exist) = save s (m.upsert s config)
  change_from config s (lookup_failed e) = (some e, s)
  change_from config s (config_found current) =
      remove_relations config s
        (removed (relation_set current.relations []) (relation_set config.relations []))

  -- the function that WriteConfig runs in a transaction
  unfoldable pub change_config : NamespaceConfig → S → Option TxnError × S
  unfolding change_from
  change_config config s = change_from config s (m.get_config s config.name)

  respond : Option TxnError × S → Response × S
  respond (none, s) = (written, s)
  respond (some (config_failure t message), s) = (refused (to_status t message), s)
  respond (some _, s) = (refused internal_status, s)

  write_validated : NamespaceConfig → S → Validation → Response × S
  unfolding respond
  write_validated config s valid = respond (wrap_transaction (change_config config) s)
  write_validated config s (invalid message) = (refused (status invalid_argument message), s)
  write_validated config s panics = (crashed, s)

  -- WriteConfig
  unfoldable pub write_config_rpc : Option NamespaceConfig → S → Response × S
  unfolding write_validated
  write_config_rpc none s = (refused (required (bytes "config")), s)
  write_config_rpc (some config) s =
      if is_empty config.name
      then (refused (required (bytes "config.name")), s)
      else write_validated config s
          (validate_relations (relation_set config.relations []) config config.relations)

  read_found : Text → Lookup → Result NamespaceConfig
  read_found namespace (config_found config) = returns config
  read_found namespace (lookup_failed doesnt_exist) =
      fails (status not_found (namespace_not_found namespace))
  read_found namespace (lookup_failed _) = fails internal_status

  -- ReadConfig; the response also has the namespace of the request
  unfoldable pub read_config_rpc : Text → S → Result NamespaceConfig
  unfolding read_found
  read_config_rpc namespace s =
      if is_empty namespace
      then fails (required (bytes "namespace"))
      else read_found namespace (m.get_config s namespace)
