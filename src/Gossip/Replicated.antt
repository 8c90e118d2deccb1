-- ===== src/Gossip/Replicated.antt =====
-- A node's state, sent by LocalState and received by MergeRemoteState.
use access_controller.Prelude.{
  ℕ, ◌≡◌, refl, ◌∙◌, ap, Bool, true, false, Option, none, some, [], ◌∷◌, if◌then◌else◌, All, All-In,
  All-of_In,
}
use access_controller.Map.{get, keys, entry}
use access_controller.Text.{Text, text_eq, text_key}
use access_controller.Time.{Time, time_eq, time_key}
use access_controller.Config.{NamespaceConfig}
use access_controller.Snapshots.{
  Snapshots, Namespaces, ConfigStore, get_snapshot, get_snapshots, snapshot_of,
}
use access_controller.Snapshots.Laws.{get-get_snapshots}
use access_controller.Gossip.{
  Metadata, Codec, or_nil, local_metadata, serialize_snapshots, serialize, local_state,
  merge_metadata, merge_remote_state,
}
use access_controller.Gossip.Entries.{
  IsSendable, or_else, entry_of, decoded, decoded_if, merge_namespaces_lem,
}
use access_controller.Gossip.Sent.{
  sent_as, sent, sent_if, serialize-keys, serialize-IsSendable, entry_of-serialize,
}

-- What is documented of the encodings. A config is decoded to what was encoded. Metadata whose texts
-- are UTF-8 and whose timestamps are in UTC, without a monotonic reading, is decoded to metadata of the
-- same node with the same entries, in whatever order. Nothing is decoded from a nil slice.
pub record IsFaithful {B M : Type 0} (codec : Codec B M) (IsUtf8 : Text → Type 0) : Type 0 where
  pub config_back :
      (config : NamespaceConfig) (b : B)
      → codec.encode_config config ≡ some b
      → codec.decode_config b ≡ some config
  pub nil_fails : codec.decode_config codec.nil_config ≡ none
  pub nil_data_fails : codec.unmarshal codec.nil_data ≡ none
  pub metadata_back :
      (m : Metadata B) (text : M)
      → codec.marshal m ≡ some text
      → IsUtf8 m.node_id
      → All IsUtf8 (keys m.namespace_config_snapshots)
      → IsSendable m.namespace_config_snapshots
      → (n : Metadata B) × (codec.unmarshal text ≡ some n)
        × (n.node_id ≡ m.node_id)
        × IsSendable n.namespace_config_snapshots
        × ((namespace : Text) (u : Time)
            → entry_of (get n.namespace_config_snapshots namespace) u
              ≡ entry_of (get m.namespace_config_snapshots namespace) u)

module _ {B M : Type 0} (codec : Codec B M) where
  back_if :
      (c : Bool) (x y : Option B) (snapshots : Snapshots) (o : Option Snapshots) (u : Time)
      → decoded codec x ≡ sent codec (get snapshots u)
      → decoded codec y ≡ sent codec (snapshot_of o u)
      → decoded codec (if c then x else y)
        ≡ sent codec (snapshot_of (if c then some snapshots else o) u)
  unfolding snapshot_of
  back_if true x y snapshots o u e f = e
  back_if false x y snapshots o u e f = f

  module _ (IsUtf8 : Text → Type 0) (faithful : IsFaithful codec IsUtf8) where
    decoded-or_nil :
        (config : NamespaceConfig) (o : Option B)
        → codec.encode_config config ≡ o
        → codec.decode_config (or_nil codec.nil_config o) ≡ sent_as codec o config
    decoded-or_nil config none e = faithful.nil_fails
    decoded-or_nil config (some b) e = faithful.config_back config b e

    snapshots_back :
        (snapshots : Snapshots) (u : Time)
        → decoded codec (get (serialize_snapshots codec snapshots) u) ≡ sent codec (get snapshots u)
    unfolding serialize_snapshots get
    snapshots_back [] u = refl
    snapshots_back ((ts, config) ∷ rest) u =
        decoded_if codec (time_eq ts u) (or_nil codec.nil_config (codec.encode_config config))
          (get (serialize_snapshots codec rest) u)
        ∙ rw (decoded-or_nil config (codec.encode_config config) refl, snapshots_back rest u)
            (sent_if codec (time_eq ts u) config (get rest u))

    namespaces_back :
        (namespaces : Namespaces) (n : Text) (u : Time)
        → IsSendable namespaces
        → decoded codec (entry_of (get (serialize codec namespaces) n) u)
          ≡ sent codec (snapshot_of (get namespaces n) u)
    unfolding serialize get snapshot_of
    namespaces_back [] n u ok = refl
    namespaces_back ((namespace, snapshots) ∷ rest) n u (entry fresh unique, times) =
        ap (decoded codec) (entry_of-serialize codec namespace snapshots rest n u fresh)
        ∙ back_if (text_eq namespace n) _ _ snapshots (get rest n) u (snapshots_back snapshots u)
            (namespaces_back rest n u (unique, times.1))

    -- The state that is merged has the entries that were sent codec.
    merged_lem :
        (store sender : ConfigStore) (m : Metadata B) (o : Option (Metadata B)) (p n : Text)
        (u : Time)
        → (r : Metadata B) × (o ≡ some r)
          × (r.node_id ≡ m.node_id)
          × IsSendable r.namespace_config_snapshots
          × ((namespace : Text) (v : Time)
              → entry_of (get r.namespace_config_snapshots namespace) v
                ≡ entry_of (get m.namespace_config_snapshots namespace) v)
        → get_snapshot (merge_metadata codec store o) p n u ≡ (
            if text_eq m.node_id p
            then or_else
                (decoded codec (entry_of (get m.namespace_config_snapshots n) u))
                (get_snapshot store p n u)
            else get_snapshot store p n u)
    unfolding merge_metadata
    merged_lem store sender m o p n u (r, e, same, ok, entries) =
        ap (λ x. get_snapshot (merge_metadata codec store x) p n u) e
        ∙ merge_namespaces_lem codec store r.node_id r.namespace_config_snapshots p n u ok
        ∙ rw (same, entries n u) refl

    -- The result by whether the metadata is encoded.
    merge_sent :
        (store sender : ConfigStore) (server_id : Text) (server_port : ℕ) (p n : Text) (u : Time)
        (o : Option M)
        → codec.marshal (local_metadata codec sender server_id server_port) ≡ o
        → IsUtf8 server_id
        → All IsUtf8 (keys (get_snapshots sender server_id))
        → IsSendable (get_snapshots sender server_id)
        → get_snapshot (merge_remote_state codec store (or_nil codec.nil_data o)) p n u ≡ elim o [
          | none ↦ get_snapshot store p n u
          | some text ↦
              if text_eq server_id p
              then or_else
                  (sent codec (get_snapshot sender server_id n u))
                  (get_snapshot store p n u)
              else get_snapshot store p n u
        ]
    unfolding merge_remote_state merge_metadata
    merge_sent store sender server_id server_port p n u none e utf8 all ok =
        ap (λ x. get_snapshot (merge_metadata codec store x) p n u) faithful.nil_data_fails
    merge_sent store sender server_id server_port p n u (some text) e utf8 all ok =
        let namespaces = get_snapshots sender server_id in
        let m = local_metadata codec sender server_id server_port in
        let known =
          All-of_In IsUtf8 (keys (serialize codec namespaces))
            (λ k i. All-In IsUtf8 k (keys namespaces) all (serialize-keys codec namespaces k i)) in
        merged_lem store sender m (codec.unmarshal text) p n u
          (faithful.metadata_back m text e utf8 known (serialize-IsSendable codec namespaces ok))
        ∙ ap
            (λ o.
              if text_eq server_id p
              then or_else o (get_snapshot store p n u)
              else get_snapshot store p n u)
            (namespaces_back namespaces n u ok
              ∙ ap (sent codec) (get-get_snapshots sender server_id n u))

-- When a node merges the state that a peer has sent by LocalState, it knows of that peer, at each
-- namespace and timestamp, the config that the peer holds of itself and that can be encoded, or else
-- what it knew before; what it knows of the other peers stays as it was; and nothing changes if the
-- peer's metadata could not be encoded. The encodings are assumed to decode configs, and the entries
-- of metadata in whatever order, to what was encoded, and nil slices to nothing; the peer's name and
-- namespaces to be UTF-8; and its maps to have unique keys and normalised timestamps.
pub merge_remote_state-local_state :
    {B M : Type 0} (codec : Codec B M) (IsUtf8 : Text → Type 0) (store sender : ConfigStore)
    (server_id : Text) (server_port : ℕ) (p n : Text) (u : Time)
    → IsFaithful codec IsUtf8
    → IsUtf8 server_id
    → All IsUtf8 (keys (get_snapshots sender server_id))
    → IsSendable (get_snapshots sender server_id)
    → get_snapshot
        (merge_remote_state codec store (local_state codec sender server_id server_port))
        p
        n
        u
      ≡ elim (codec.marshal (local_metadata codec sender server_id server_port)) [
        | none ↦ get_snapshot store p n u
        | some text ↦
            if text_eq server_id p
            then or_else (sent codec (get_snapshot sender server_id n u)) (get_snapshot store p n u)
            else get_snapshot store p n u
      ]
unfolding local_state
merge_remote_state-local_state codec IsUtf8 store sender server_id server_port p n u faithful utf8
      all ok =
    merge_sent codec IsUtf8 faithful store sender server_id server_port p n u _ refl utf8 all ok
