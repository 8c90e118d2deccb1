-- ===== src/Handler/ConfigRpc/Written.antt =====
-- What WriteConfig does to the database, by its response.
use access_controller.Prelude.{◌≡◌, refl, ◌≢◌, inl, inr, Option, none, some, arith, Bool-cases, []}
use access_controller.Text.{is_empty}
use access_controller.Config.{NamespaceConfig, Validation, valid, invalid, panics}
use access_controller.Handler.ConfigRpc.{
  TxnError, config_failure, doesnt_exist, other_error, Manager, relation_set, written,
  validate_relations, end_transaction, wrap_transaction, change_config, respond, write_validated,
  write_config_rpc,
}

module _ {S : Type 0} (m : Manager S) where
  end_transaction-unchanged :
      (t : Option TxnError × S) (s : S)
      → (end_transaction m s t).0 ≢ none
      → (end_transaction m s t).1 ≡ s
  unfolding end_transaction
  end_transaction-unchanged (none, u) s h = ground arith
  end_transaction-unchanged (some e, u) s h = refl

  wrap_transaction-unchanged :
      (fn : S → Option TxnError × S) (s : S)
      → (wrap_transaction m fn s).0 ≢ none
      → (wrap_transaction m fn s).1 ≡ s
  unfolding wrap_transaction
  wrap_transaction-unchanged fn s h = elim (Bool-cases (m.begins s)) [
    | inl b ↦ rw b (end_transaction-unchanged (fn s) s (rw b at h))
    | inr b ↦ rw b refl
  ]

  respond-unchanged :
      (t : Option TxnError × S) (s : S)
      → (t.0 ≢ none → t.1 ≡ s)
      → (respond m t).0 ≢ written
      → (respond m t).1 ≡ s
  unfolding respond
  respond-unchanged (none, u) s keeps h = absurd (h refl)
  respond-unchanged (some (config_failure t message), u) s keeps h = keeps (λ e. cc)
  respond-unchanged (some doesnt_exist, u) s keeps h = keeps (λ e. cc)
  respond-unchanged (some other_error, u) s keeps h = keeps (λ e. cc)

  write_validated-unchanged :
      (config : NamespaceConfig) (s : S) (v : Validation)
      → (write_validated m config s v).0 ≢ written
      → (write_validated m config s v).1 ≡ s
  unfolding write_validated
  write_validated-unchanged config s valid h =
      respond-unchanged (wrap_transaction m (change_config m config) s) s
        (wrap_transaction-unchanged (change_config m config) s) h
  write_validated-unchanged config s (invalid message) h = refl
  write_validated-unchanged config s panics h = refl

-- If WriteConfig does not succeed, because of a missing field, an invalid rule, references to a
-- relation that would be removed, or an error of the manager or of the transaction, the database is
-- as before.
pub write_config_rpc-unchanged :
    {S : Type 0} (m : Manager S) (config : Option NamespaceConfig) (s : S)
    → (write_config_rpc m config s).0 ≢ written
    → (write_config_rpc m config s).1 ≡ s
unfolding write_config_rpc
write_config_rpc-unchanged m none s h = refl
write_config_rpc-unchanged m (some config) s h = elim (Bool-cases (is_empty config.name)) [
  | inl b ↦ rw b refl
  | inr b ↦ rw b (
      write_validated-unchanged m config s
        (validate_relations (relation_set config.relations []) config config.relations) (rw b at h))
]
