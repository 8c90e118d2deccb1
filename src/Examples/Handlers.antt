-- ===== src/Examples/Handlers.antt =====
-- The handlers on the cluster of Data.
use access_controller.Prelude.{
  ◌≡◌, refl, subst, ◌↔◌, inl, inr, true, Option, none, some, List, [], ◌∷◌, In,
}
use access_controller.Map.{get, put, keys}
use access_controller.Text.{Text, bytes, text_eq, text_key}
use access_controller.Status.{unknown}
use access_controller.Result.{returns}
use access_controller.Config.{NamespaceConfig, self_rewrite, rewrite_from_config, validate_rewrite}
use access_controller.Config.Scope.{IsScoped, IsLastNested}
use access_controller.Tuple.{InternalRelationTuple, subject_id, tuple_to_proto}
use access_controller.Context.{background}
use access_controller.Check.{Node, check}
use access_controller.Check.Proxy.{refused}
use access_controller.Check.Semantics.{Granted}
use access_controller.Check.Rules.{Decides}
use access_controller.Check.Pins.{rules_at}
use access_controller.Handler.Fleet.{fleet_node, fleet_node-Decides}
use access_controller.Check.Types.{ok}
use access_controller.Handler.CheckRpc.{
  check_rpc, forwarded, Answers, check_rpc-forwarded, check_rpc-Answers,
}
use access_controller.Handler.WriteRpc.{insert, Transact, write_rpc}
use access_controller.Handler.WriteRpc.Applied.{IsApplied, write_rpc-IsApplied}
use access_controller.Handler.ConfigRpc.{
  Manager, config_found, lookup_failed, doesnt_exist, written, relation_set, write_config_rpc,
  validate_relations, wrap_transaction, change_config, removed,
}
use access_controller.Handler.ConfigRpc.Removal.{names, FindsReferences, write_config_rpc-keeps}
use access_controller.Handler.ConfigRpc.Scoped.{write_config_rpc-IsScoped}
use access_controller.Examples.Data.{doc, sample_config, sample_store, sample_node, sample_query}
use access_controller.Examples.Checks.{amy_views, alone-ArePeersRight}

check_rpc-forwarded_example :
    check_rpc sample_node 3 background (forwarded sample_query)
    ≡ check sample_node 3 background sample_query
check_rpc-forwarded_example =
    check_rpc-forwarded sample_node 3 background sample_query (λ e. cc) (λ e. cc) (λ e. cc)

amy_answered : check_rpc sample_node 3 background (forwarded sample_query) ≡ some (ok true)
amy_answered = rw check_rpc-forwarded_example amy_views

check_rpc-Answers_example : Answers sample_node background (forwarded sample_query) true
check_rpc-Answers_example =
    check_rpc-Answers sample_node 3 background (forwarded sample_query) true alone-ArePeersRight
      amy_answered

abbrev amy_member : InternalRelationTuple
amy_member = record {
  namespace = doc;
  object = bytes "team";
  relation = bytes "member";
  subject = subject_id (bytes "amy");
}

-- The database is the list of its tuples; nothing is deleted.
abbrev append_tuples : Transact (List InternalRelationTuple)
append_tuples db inserts deletes = some inserts

write_rpc-IsApplied_example :
    (write_rpc append_tuples sample_store
        (record { action = insert; relation_tuple = tuple_to_proto amy_member } ∷ [])
        []
      ≡ (returns tt, amy_member ∷ []))
    ↔ IsApplied append_tuples sample_store
        (record { action = insert; relation_tuple = tuple_to_proto amy_member } ∷ [])
        []
        (amy_member ∷ [])
write_rpc-IsApplied_example =
    write_rpc-IsApplied append_tuples sample_store
      (record { action = insert; relation_tuple = tuple_to_proto amy_member } ∷ []) []
      (amy_member ∷ [])

-- A database that holds at most one config, and whose tuples refer to doc#member.
abbrev one_config : Manager (Option NamespaceConfig)
one_config = record {
  get_config = λ s namespace. elim s [
    | none ↦ lookup_failed doesnt_exist
    | some config ↦ config_found config
  ];
  upsert = λ s config. some (some config);
  references = λ s namespace relations. some ((bytes "member", 1) ∷ []);
  begins = λ s. true;
  commits = λ s. true;
}

abbrev IsMember : Option NamespaceConfig → Text → Text → Type 0
IsMember s namespace relation = relation ≡ bytes "member"

one_config-FindsReferences : FindsReferences one_config IsMember
one_config-FindsReferences = record {
  finds = λ s ns relation relations refs r k e.
      let same : (bytes "member", 1) ∷ [] ≡ refs = cc in
      subst (λ m. In relation (keys m)) same (inl r);
}

accepted :
    write_config_rpc one_config (some sample_config) (some sample_config)
    ≡ (written, some sample_config)
unfolding write_config_rpc validate_relations validate_rewrite rewrite_from_config text_eq
    wrap_transaction change_config removed relation_set put get
accepted = refl

write_config_rpc-keeps_example : In (bytes "member") (names sample_config.relations)
write_config_rpc-keeps_example =
    write_config_rpc-keeps one_config IsMember one_config-FindsReferences sample_config
      sample_config (some sample_config) (some sample_config) (bytes "member") accepted refl
      (inr (inl refl)) refl

write_config_rpc-IsScoped_example : IsScoped (relation_set sample_config.relations []) self_rewrite
unfolding rewrite_from_config IsLastNested text_eq
write_config_rpc-IsScoped_example =
    write_config_rpc-IsScoped one_config sample_config (some sample_config) (some sample_config)
      (bytes "viewer") self_rewrite accepted refl tt

-- Two nodes or more of which "b" owns everything, so that each forwards to "b".
abbrev forwarding_node : Text → Node
forwarding_node name = record sample_node {
  peers = record {
    locate = λ i object. bytes "b";
    has_client = λ i node. true;
    call = λ i node ctx q. refused unknown;
  };
}

fleet_node-Decides_example :
    Decides
      (Granted sample_node.tuples (rules_at (forwarding_node (bytes "a")) background) sample_query)
      (check (fleet_node forwarding_node 3 2 (bytes "a")) 3 background sample_query)
fleet_node-Decides_example =
    fleet_node-Decides forwarding_node 3 2 (bytes "a") sample_query
      (record { same_tuples = λ a b. refl; same_rules = λ a b. refl })
