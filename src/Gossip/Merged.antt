-- ===== src/Gossip/Merged.antt =====
-- What a node knows of a peer after the peer's state is merged.
use access_controller.Prelude.{Option, none, some, [], ◌∷◌}
use access_controller.Map.{Map}
use access_controller.Text.{Text, text_key}
use access_controller.Time.{Time, time_key}
use access_controller.Config.{NamespaceConfig}
use access_controller.Snapshots.{ConfigStore}
use access_controller.Snapshots.Invariant.{IsValid, updates-IsValid}
use access_controller.Gossip.{
  Metadata, Codec, merge_config, merge_snapshots, merge_namespaces, merge_metadata,
  merge_remote_state,
}

module _ {B M : Type 0} (codec : Codec B M) where
  merge_config-IsValid :
      (store : ConfigStore) (peer namespace : Text) (ts : Time) (o : Option NamespaceConfig)
      → IsValid store
      → IsValid (merge_config codec store peer namespace ts o)
  unfolding merge_config
  merge_config-IsValid store peer namespace ts none ok = ok
  merge_config-IsValid store peer namespace ts (some config) ok =
      (updates-IsValid store peer namespace config ts ok).0

  merge_snapshots-IsValid :
      (store : ConfigStore) (peer namespace : Text) (snapshots : Map Time B)
      → IsValid store
      → IsValid (merge_snapshots codec store peer namespace snapshots)
  unfolding merge_snapshots
  merge_snapshots-IsValid store peer namespace [] ok = ok
  merge_snapshots-IsValid store peer namespace ((ts, text) ∷ rest) ok =
      merge_snapshots-IsValid
        (merge_config codec store peer namespace ts (codec.decode_config text)) peer namespace rest
        (merge_config-IsValid store peer namespace ts (codec.decode_config text) ok)

  merge_namespaces-IsValid :
      (store : ConfigStore) (peer : Text) (namespaces : Map Text (Map Time B))
      → IsValid store
      → IsValid (merge_namespaces codec store peer namespaces)
  unfolding merge_namespaces
  merge_namespaces-IsValid store peer [] ok = ok
  merge_namespaces-IsValid store peer ((namespace, snapshots) ∷ rest) ok =
      merge_namespaces-IsValid (merge_snapshots codec store peer namespace snapshots) peer rest
        (merge_snapshots-IsValid store peer namespace snapshots ok)

  merge_metadata-IsValid :
      (store : ConfigStore) (o : Option (Metadata B))
      → IsValid store
      → IsValid (merge_metadata codec store o)
  unfolding merge_metadata
  merge_metadata-IsValid store none ok = ok
  merge_metadata-IsValid store (some m) ok =
      merge_namespaces-IsValid store m.node_id m.namespace_config_snapshots ok

-- Whatever a peer sends, malformed text and unknown locations included, MergeRemoteState keeps the
-- store of snapshots well-formed.
pub merge_remote_state-IsValid :
    {B M : Type 0} (codec : Codec B M) (store : ConfigStore) (buf : M)
    → IsValid store
    → IsValid (merge_remote_state codec store buf)
unfolding merge_remote_state
merge_remote_state-IsValid codec store buf ok =
    merge_metadata-IsValid codec store (codec.unmarshal buf) ok
