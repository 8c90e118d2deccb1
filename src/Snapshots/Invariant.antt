-- ===== src/Snapshots/Invariant.antt =====
-- The well-formedness of the snapshot store, which each of its updates preserves.
use access_controller.Prelude.{◌≡◌, refl, Option, none, some, [], ◌∷◌, inl, inr, In, All}
use access_controller.Map.{get, keys, HasUniqueKeys, empty, entry}
use access_controller.Map.Entries.{
  put-HasUniqueKeys, delete-HasUniqueKeys, All-put, All-delete, All-get, All-keys,
}
use access_controller.Text.{Text, text_key}
use access_controller.Time.{Time, round_utc, time_key}
use access_controller.Config.{NamespaceConfig}
use access_controller.Snapshots.{
  Snapshots, Namespaces, ConfigStore, empty_store, set_in_namespace, set_in_peer, set_snapshot,
  or_no_snapshots, list_snapshots, delete_snapshots,
}

abbrev pub IsNormal : Time × NamespaceConfig → Type 0
IsNormal e = round_utc e.0 ≡ e.0

abbrev pub AreNormal : Text × Snapshots → Type 0
AreNormal n = All IsNormal n.1

abbrev PeerIsNormal : Text × Namespaces → Type 0
PeerIsNormal p = All AreNormal p.1

-- A peer has one entry, and every timestamp that is a key is normalised.
pub record IsValid (store : ConfigStore) : Type 0 where
  pub unique : HasUniqueKeys store
  pub normal : All PeerIsNormal store

pub IsValid-empty : IsValid empty_store
IsValid-empty = record { unique = empty; normal = tt }

round_utc_idem : (t : Time) → round_utc (round_utc t) ≡ round_utc t
unfolding round_utc
round_utc_idem t = refl

set_in_namespace-IsNormal :
    (o : Option Snapshots) (ts : Time) (config : NamespaceConfig)
    → ((m : Snapshots) → o ≡ some m → All IsNormal m)
    → round_utc ts ≡ ts
    → All IsNormal (set_in_namespace o ts config)
unfolding set_snapshot
set_in_namespace-IsNormal none ts config h n = (n, tt)
set_in_namespace-IsNormal (some m) ts config h n = All-put IsNormal m ts config (h m refl) n

set_in_peer-normal :
    (o : Option Namespaces) (namespace : Text) (ts : Time) (config : NamespaceConfig)
    → ((m : Namespaces) → o ≡ some m → All AreNormal m)
    → round_utc ts ≡ ts
    → All AreNormal (set_in_peer o namespace ts config)
unfolding set_snapshot
set_in_peer-normal none namespace ts config h n = ((n, tt), tt)
set_in_peer-normal (some m) namespace ts config h n = All-put AreNormal m namespace _ (h m refl) (
    set_in_namespace-IsNormal (get m namespace) ts config
      (λ s e. All-get AreNormal m namespace s (h m refl) e) n)

-- SetNamespaceConfigSnapshot and DeleteNamespaceConfigSnapshots keep the store well-formed, whatever
-- the location and the clock reading of the timestamp that is set.
pub updates-IsValid :
    (store : ConfigStore) (peer namespace : Text) (config : NamespaceConfig) (ts : Time)
    → IsValid store
    → IsValid (set_snapshot store peer namespace config ts) × IsValid (delete_snapshots store peer)
unfolding set_snapshot delete_snapshots
updates-IsValid store peer namespace config ts ok = (
  record {
    unique = put-HasUniqueKeys store peer _ ok.unique;
    normal = All-put PeerIsNormal store peer _ ok.normal (
        set_in_peer-normal (get store peer) namespace (round_utc ts) config
          (λ m e. All-get PeerIsNormal store peer m ok.normal e) (round_utc_idem ts));
  },
  record {
    unique = delete-HasUniqueKeys store peer ok.unique;
    normal = All-delete PeerIsNormal store peer ok.normal;
  },
)

list_snapshots-keys :
    (store : ConfigStore) (namespace p : Text)
    → In p (keys (list_snapshots store namespace))
    → In p (keys store)
unfolding list_snapshots
list_snapshots-keys [] namespace p h = h
list_snapshots-keys ((q, configs) ∷ store) namespace p (inl e) = inl e
list_snapshots-keys ((q, configs) ∷ store) namespace p (inr h) =
    inr (list_snapshots-keys store namespace p h)

pub list_snapshots-HasUniqueKeys :
    (store : ConfigStore) (namespace : Text)
    → HasUniqueKeys store
    → HasUniqueKeys (list_snapshots store namespace)
unfolding list_snapshots
list_snapshots-HasUniqueKeys [] namespace u = empty
list_snapshots-HasUniqueKeys ((q, configs) ∷ store) namespace (entry f u) =
    entry (λ h. f (list_snapshots-keys store namespace q h))
      (list_snapshots-HasUniqueKeys store namespace u)

or_no_snapshots-normal :
    (o : Option Snapshots)
    → ((m : Snapshots) → o ≡ some m → All IsNormal m)
    → All (λ t. round_utc t ≡ t) (keys (or_no_snapshots o))
unfolding list_snapshots
or_no_snapshots-normal none h = tt
or_no_snapshots-normal (some m) h = All-keys (λ t. round_utc t ≡ t) m (h m refl)

pub list_snapshots-normal :
    (store : ConfigStore) (namespace : Text)
    → All PeerIsNormal store
    → All (λ p. All (λ t. round_utc t ≡ t) (keys p.1)) (list_snapshots store namespace)
unfolding list_snapshots
list_snapshots-normal [] namespace h = tt
list_snapshots-normal ((q, configs) ∷ store) namespace h = (
  or_no_snapshots-normal (get configs namespace)
      (λ m e. All-get AreNormal configs namespace m h.0 e),
  list_snapshots-normal store namespace h.1,
)
