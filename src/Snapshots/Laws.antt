-- ===== src/Snapshots/Laws.antt =====
-- What a reader of the store sees after each of its updates.
use access_controller.Prelude.{◌≡◌, refl, ◌&&◌, Option, none, some, [], ◌∷◌, arith, if◌then◌else◌}
use access_controller.Map.{get, get-put, get-delete}
use access_controller.Text.{Text, text_eq, text_eq_iff, text_key}
use access_controller.Time.{Time, round_utc, time_eq, time_key}
use access_controller.Config.{NamespaceConfig}
use access_controller.Snapshots.{
  Snapshots, Namespaces, ConfigStore, set_in_namespace, set_in_peer, set_snapshot, or_no_snapshots,
  list_snapshots, snapshot_of, snapshot_of_peer, get_snapshot, get_snapshots, delete_snapshots,
}

snapshot_of-set :
    (o : Option Snapshots) (ts : Time) (config : NamespaceConfig) (u : Time)
    → snapshot_of (some (set_in_namespace o ts config)) u
      ≡ (if time_eq ts u then some config else snapshot_of o u)
unfolding get_snapshot set_snapshot get
snapshot_of-set none ts config u = refl
snapshot_of-set (some m) ts config u = get-put m ts config u

snapshot_of_peer-set :
    (o : Option Namespaces) (namespace : Text) (ts : Time) (config : NamespaceConfig) (n : Text)
    (u : Time)
    → snapshot_of_peer (some (set_in_peer o namespace ts config)) n u
      ≡ (if text_eq namespace n && time_eq ts u then some config else snapshot_of_peer o n u)
unfolding get_snapshot set_snapshot get
snapshot_of_peer-set none namespace ts config n u = ground arith
snapshot_of_peer-set (some m) namespace ts config n u =
    rw (get-put m namespace (set_in_namespace (get m namespace) ts config) n)
      (ground (arith, text_eq_iff namespace n, snapshot_of-set (get m namespace) ts config u))

-- After SetNamespaceConfigSnapshot a lookup of the same peer, the same namespace and the normalised
-- timestamp gives the config that was set, and every other lookup gives what it gave before.
pub get_snapshot-set_snapshot :
    (store : ConfigStore) (peer namespace : Text) (config : NamespaceConfig) (ts : Time)
    (p n : Text) (u : Time)
    → get_snapshot (set_snapshot store peer namespace config ts) p n u ≡ (
        if text_eq peer p && (text_eq namespace n && time_eq (round_utc ts) u)
        then some config
        else get_snapshot store p n u)
unfolding get_snapshot set_snapshot
get_snapshot-set_snapshot store peer namespace config ts p n u =
    rw (get-put store peer (set_in_peer (get store peer) namespace (round_utc ts) config) p) (
      ground (
        arith,
        text_eq_iff peer p,
        snapshot_of_peer-set (get store peer) namespace (round_utc ts) config n u,
      ))

-- DeleteNamespaceConfigSnapshots removes every snapshot of its peer, and no other.
pub get_snapshot-delete_snapshots :
    (store : ConfigStore) (peer p n : Text) (u : Time)
    → get_snapshot (delete_snapshots store peer) p n u
      ≡ (if text_eq peer p then none else get_snapshot store p n u)
unfolding get_snapshot delete_snapshots
get_snapshot-delete_snapshots store peer p n u = rw get-delete (ground arith)

snapshot_of_or : (o : Option Snapshots) (u : Time) → get (or_no_snapshots o) u ≡ snapshot_of o u
unfolding get_snapshot list_snapshots get
snapshot_of_or none u = refl
snapshot_of_or (some m) u = refl

-- ListNamespaceConfigSnapshots shows, for every peer and timestamp, what a lookup of that peer's
-- snapshot gives.
pub get-list_snapshots :
    (store : ConfigStore) (p n : Text) (u : Time)
    → snapshot_of (get (list_snapshots store n) p) u ≡ get_snapshot store p n u
unfolding get_snapshot list_snapshots get
get-list_snapshots [] p n u = refl
get-list_snapshots ((q, configs) ∷ store) p n u =
    ground (arith, get-list_snapshots store p n u, snapshot_of_or (get configs n) u)

get_snapshots-get :
    (o : Option Namespaces) (n : Text) (u : Time)
    → snapshot_of (get (elim o [ none ↦ [] | some configs ↦ configs ]) n) u ≡ snapshot_of_peer o n u
unfolding snapshot_of_peer get
get_snapshots-get none n u = refl
get_snapshots-get (some configs) n u = refl

-- GetNamespaceConfigSnapshots shows, for every namespace and timestamp, what a lookup gives.
pub get-get_snapshots :
    (store : ConfigStore) (p n : Text) (u : Time)
    → snapshot_of (get (get_snapshots store p) n) u ≡ get_snapshot store p n u
unfolding get_snapshots get_snapshot
get-get_snapshots store p n u = get_snapshots-get (get store p) n u
