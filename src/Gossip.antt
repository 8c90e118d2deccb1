-- ===== src/Gossip.antt =====
-- The exchange of namespace config snapshots between nodes: LocalState and MergeRemoteState of
-- internal/access-controller.go, with NodeMetadata of internal/node.go.
pub mod Merged
pub mod Entries
pub mod Sent
pub mod Replicated
use access_controller.Prelude.{ℕ, Option, none, some, List, [], ◌∷◌}
use access_controller.Map.{Map}
use access_controller.Text.{Text}
use access_controller.Time.{Time}
use access_controller.Config.{NamespaceConfig}
use access_controller.Snapshots.{Snapshots, Namespaces, ConfigStore, set_snapshot, get_snapshots}

-- NodeMetadata
-- A config is a value of B in its JSON form.
pub record Metadata (B : Type 0) : Type 0 where
  pub node_id : Text
  pub server_port : ℕ
  pub namespace_config_snapshots : Map Text (Map Time B)

-- The encodings: protojson for a config and encoding/json for the metadata; `none` is an error.
-- B and M are the encoded forms of a config and of the metadata, with the nil slices that a failed
-- Marshal returns.
pub record Codec (B M : Type 0) : Type 0 where
  pub encode_config : NamespaceConfig → Option B
  pub decode_config : B → Option NamespaceConfig
  pub marshal : Metadata B → Option M
  pub unmarshal : M → Option (Metadata B)
  pub nil_config : B
  pub nil_data : M

-- the slice that Marshal returns, after an error is logged
abbrev pub or_nil : {A : Type 0} → A → Option A → A
or_nil nothing none = nothing
or_nil nothing (some a) = a

module _ {B M : Type 0} (codec : Codec B M) where
  -- for timestamp, config := range snapshots
  unfoldable pub serialize_snapshots : Snapshots → Map Time B
  serialize_snapshots [] = []
  serialize_snapshots ((ts, config) ∷ rest) =
      (ts, or_nil codec.nil_config (codec.encode_config config)) ∷ serialize_snapshots rest

  keep_some : Text → Map Time B → Map Text (Map Time B) → Map Text (Map Time B)
  keep_some namespace [] rest = rest
  keep_some namespace (s ∷ snapshots) rest = (namespace, s ∷ snapshots) ∷ rest

  -- for namespace, snapshots := range configs; a namespace with no snapshots has no entry
  unfoldable pub serialize : Namespaces → Map Text (Map Time B)
  unfolding keep_some
  serialize [] = []
  serialize ((namespace, snapshots) ∷ rest) =
      keep_some namespace (serialize_snapshots snapshots) (serialize rest)

  -- the metadata that LocalState encodes
  abbrev pub local_metadata : ConfigStore → Text → ℕ → Metadata B
  local_metadata store server_id server_port = record {
    node_id = server_id;
    server_port = server_port;
    namespace_config_snapshots = serialize (get_snapshots store server_id);
  }

  -- LocalState
  unfoldable pub local_state : ConfigStore → Text → ℕ → M
  local_state store server_id server_port =
      or_nil codec.nil_data (codec.marshal (local_metadata store server_id server_port))

  merge_config : ConfigStore → Text → Text → Time → Option NamespaceConfig → ConfigStore
  merge_config store peer namespace ts none = store
  merge_config store peer namespace ts (some config) = set_snapshot store peer namespace config ts

  -- for ts, config := range configSnapshots
  unfoldable pub merge_snapshots : ConfigStore → Text → Text → Map Time B → ConfigStore
  unfolding merge_config
  merge_snapshots store peer namespace [] = store
  merge_snapshots store peer namespace ((ts, text) ∷ rest) =
      merge_snapshots (merge_config store peer namespace ts (codec.decode_config text)) peer
        namespace rest

  -- for namespace, configSnapshots := range
  unfoldable pub merge_namespaces : ConfigStore → Text → Map Text (Map Time B) → ConfigStore
  merge_namespaces store peer [] = store
  merge_namespaces store peer ((namespace, snapshots) ∷ rest) =
      merge_namespaces (merge_snapshots store peer namespace snapshots) peer rest

  merge_metadata : ConfigStore → Option (Metadata B) → ConfigStore
  merge_metadata store none = store
  merge_metadata store (some m) = merge_namespaces store m.node_id m.namespace_config_snapshots

  -- MergeRemoteState
  unfoldable pub merge_remote_state : ConfigStore → M → ConfigStore
  unfolding merge_metadata
  merge_remote_state store buf = merge_metadata store (codec.unmarshal buf)
