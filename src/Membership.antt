-- ===== src/Membership.antt =====
-- Cluster membership: the map-based ClientRouter of internal/client-router.go, and NotifyJoin and
-- NotifyLeave of internal/access-controller.go, which keep the router, the hash ring and the peers'
-- snapshots in step with the members of the cluster.
pub mod Routed
use access_controller.Prelude.{
  ◌≡◌, ◌≢◌, ◌↔◌, ◌⊎◌, Option, none, some, List, [], ◌∷◌, if◌then◌else◌, In,
}
use access_controller.Map.{Map, get, put, delete}
use access_controller.Text.{Text, text_eq, text_key}
use access_controller.Snapshots.{ConfigStore, delete_snapshots}

-- mapClientRouter.cache
abbrev pub Router {ℓ} : Type ℓ → Type ℓ
Router C = Map Text C

-- AddClient
unfoldable pub add_client {ℓ} : {C : Type ℓ} → Router C → Text → C → Router C
add_client router node client = put router node client

-- GetClient: `none` is ErrClientNotFound
unfoldable pub get_client {ℓ} : {C : Type ℓ} → Router C → Text → Option C
get_client router node = get router node

-- RemoveClient
unfoldable pub remove_client {ℓ} : {C : Type ℓ} → Router C → Text → Router C
remove_client router node = delete router node

-- A hash ring of the library `consistent`, by the names of its members: Add, Remove and LocateKey.
-- The laws are what it documents; a ring with members locates each key at one of them.
pub record Ring (R : Type 0) : Type 0 where
  pub add : R → Text → R
  pub remove : R → Text → R
  pub members : R → List Text
  pub locate : R → Text → Text
  pub members-add :
      (r : R) (node x : Text) → In x (members (add r node)) ↔ ((x ≡ node) ⊎ In x (members r))
  pub members-remove :
      (r : R) (node x : Text) → In x (members (remove r node)) ↔ ((x ≢ node) × In x (members r))
  pub members-locate : (r : R) (key : Text) → members r ≢ [] → In (locate r key) (members r)

-- The part of AccessController that membership changes.
pub record Cluster (C R : Type 0) : Type 0 where
  pub router : Router C
  pub hashring : R
  pub configs : ConfigStore

-- A node that joins or leaves, and the RPC client that is made from its metadata and its address:
-- `none` if the metadata cannot be read or the connection fails.
pub record Member (C : Type 0) : Type 0 where
  pub name : Text
  pub client : Option C

-- What memberlist tells the node.
pub data Event (C : Type 0) : Type 0 where
  joins leaves : Member C → Event C

module _ {C R : Type 0} (ring : Ring R) (self : Text) where
  join_peer : Cluster C R → Text → Option C → Cluster C R
  join_peer a node none = a
  join_peer a node (some client) = record a {
    router = add_client a.router node client;
    hashring = ring.add a.hashring node;
  }

  -- NotifyJoin
  unfoldable pub notify_join : Cluster C R → Member C → Cluster C R
  unfolding join_peer
  notify_join a m =
      if text_eq m.name self
      then record a { hashring = ring.add a.hashring m.name }
      else join_peer a m.name m.client

  -- NotifyLeave
  unfoldable pub notify_leave : Cluster C R → Member C → Cluster C R
  notify_leave a m = record {
    router = if text_eq m.name self then a.router else remove_client a.router m.name;
    hashring = ring.remove a.hashring m.name;
    configs = delete_snapshots a.configs m.name;
  }

  unfoldable pub handle : Cluster C R → Event C → Cluster C R
  handle a (joins m) = notify_join a m
  handle a (leaves m) = notify_leave a m

  unfoldable pub handle_all : Cluster C R → List (Event C) → Cluster C R
  handle_all a [] = a
  handle_all a (e ∷ es) = handle_all (handle a e) es
