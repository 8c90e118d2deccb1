-- ===== src/Snapshots.antt =====
-- The namespace config snapshots that a node holds for itself and for its peers: the in-memory
-- PeerNamespaceConfigStore of internal/namespace-manager/namespacemgr.go. Its methods never return
-- an error; the locks make each call one step.
pub mod Laws
pub mod Invariant
use access_controller.Prelude.{Option, none, some, List, [], ◌∷◌}
use access_controller.Map.{Map, get, put, delete}
use access_controller.Text.{Text, text_key}
use access_controller.Time.{Time, round_utc, time_key}
use access_controller.Config.{NamespaceConfig}

-- by timestamp
abbrev pub Snapshots : Type 0
Snapshots = Map Time NamespaceConfig

-- by namespace
abbrev pub Namespaces : Type 0
Namespaces = Map Text Snapshots

-- inmemPeerNamespaceConfigStore.configs, by peer
abbrev pub ConfigStore : Type 0
ConfigStore = Map Text Namespaces

-- NewInMemoryPeerNamespaceConfigStore
abbrev pub empty_store : ConfigStore
empty_store = []

set_in_namespace : Option Snapshots → Time → NamespaceConfig → Snapshots
set_in_namespace none ts config = (ts, config) ∷ []
set_in_namespace (some snapshots) ts config = put snapshots ts config

set_in_peer : Option Namespaces → Text → Time → NamespaceConfig → Namespaces
unfolding set_in_namespace
set_in_peer none namespace ts config = (namespace, (ts, config) ∷ []) ∷ []
set_in_peer (some namespaces) namespace ts config =
    put namespaces namespace (set_in_namespace (get namespaces namespace) ts config)

-- SetNamespaceConfigSnapshot
unfoldable pub set_snapshot : ConfigStore → Text → Text → NamespaceConfig → Time → ConfigStore
unfolding set_in_peer
set_snapshot store peer namespace config ts =
    put store peer (set_in_peer (get store peer) namespace (round_utc ts) config)

-- a peer that does not know the namespace is listed with no snapshots
or_no_snapshots : Option Snapshots → Snapshots
or_no_snapshots none = []
or_no_snapshots (some snapshots) = snapshots

-- ListNamespaceConfigSnapshots
unfoldable pub list_snapshots : ConfigStore → Text → Map Text Snapshots
unfolding or_no_snapshots
list_snapshots [] namespace = []
list_snapshots ((peer, configs) ∷ store) namespace =
    (peer, or_no_snapshots (get configs namespace)) ∷ list_snapshots store namespace

unfoldable pub snapshot_of : Option Snapshots → Time → Option NamespaceConfig
snapshot_of none ts = none
snapshot_of (some snapshots) ts = get snapshots ts

snapshot_of_peer : Option Namespaces → Text → Time → Option NamespaceConfig
unfolding snapshot_of
snapshot_of_peer none namespace ts = none
snapshot_of_peer (some configs) namespace ts = snapshot_of (get configs namespace) ts

-- GetNamespaceConfigSnapshot: `none` is the nil config
unfoldable pub get_snapshot : ConfigStore → Text → Text → Time → Option NamespaceConfig
unfolding snapshot_of_peer
get_snapshot store peer namespace ts = snapshot_of_peer (get store peer) namespace ts

-- GetNamespaceConfigSnapshots
unfoldable pub get_snapshots : ConfigStore → Text → Namespaces
get_snapshots store peer = elim (get store peer) [ none ↦ [] | some configs ↦ configs ]

-- DeleteNamespaceConfigSnapshots
unfoldable pub delete_snapshots : ConfigStore → Text → ConfigStore
delete_snapshots store peer = delete store peer
