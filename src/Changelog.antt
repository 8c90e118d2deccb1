-- ===== src/Changelog.antt =====
-- The changelog of namespace configs: the iterator of the Postgres manager
-- (internal/namespace-manager/postgres/manager.go), and what AccessController does with the entries
-- when it is constructed (NewAccessController) and in each round of watchNamespaceConfigs
-- (internal/access-controller.go).
pub mod Replayed
pub mod Recent
use access_controller.Prelude.{ℕ, Option, none, some, List, [], ◌∷◌, if◌then◌else◌}
use access_controller.Text.{Text, bytes, text_eq}
use access_controller.Time.{Time}
use access_controller.Config.{NamespaceConfig}
use access_controller.Snapshots.{ConfigStore, set_snapshot}
use access_controller.Manager.{Operation, add_namespace, update_namespace}

-- The columns that TopChanges selects, with configs that protojson has encoded.
pub record ChangeRow (J : Type 0) : Type 0 where
  pub namespace : Text
  pub operation : Text
  pub config : J
  pub timestamp : Time

-- The rows that iter.Next goes through; `none` is one that Scan refuses.
abbrev pub ChangeRows : Type 0 → Type 0
ChangeRows J = List (Option (ChangeRow J))

-- NamespaceChangelogEntry
pub record Entry : Type 0 where
  pub namespace : Text
  pub operation : Operation
  pub config : NamespaceConfig
  pub timestamp : Time

-- What iterator.Value does: an entry, an error or a panic.
pub data Value : Type 0 where
  entry : Entry → Value
  value_failed value_panics : Value

-- the constants AddNamespace and UpdateNamespace
unfoldable pub operation_text : Operation → Text
operation_text add_namespace = bytes "ADD"
operation_text update_namespace = bytes "UPDATE"

-- the switch over the operation
unfoldable pub read_operation : Text → Option Operation
read_operation text =
    if text_eq text (bytes "ADD")
    then some add_namespace
    else if text_eq text (bytes "UPDATE")
    then some update_namespace
    else none

with_config : {J : Type 0} → ChangeRow J → Operation → Option NamespaceConfig → Value
with_config row operation none = value_failed
with_config row operation (some config) = entry (record {
  namespace = row.namespace;
  operation = operation;
  config = config;
  timestamp = row.timestamp;
})

with_operation :
    {J : Type 0} → (J → Option NamespaceConfig) → ChangeRow J → Option Operation → Value
unfolding with_config
with_operation unmarshal row none = value_panics
with_operation unmarshal row (some operation) = with_config row operation (unmarshal row.config)

-- iterator.Value, over protojson.Unmarshal
unfoldable pub value : {J : Type 0} → (J → Option NamespaceConfig) → Option (ChangeRow J) → Value
unfolding with_operation
value unmarshal none = value_failed
value unmarshal (some row) = with_operation unmarshal row (read_operation row.operation)

-- an entry of either operation is stored for this node
unfoldable pub apply_entry : Text → Entry → ConfigStore → ConfigStore
apply_entry server_id e store = set_snapshot store server_id e.namespace e.config e.timestamp

-- NewAccessController goes on with the store, returns an error, or panics.
pub data Loaded : Type 0 where
  loaded : ConfigStore → Loaded
  load_failed load_panics : Loaded

-- The recursion on the rows behind an entry.
abbrev pub load_value : Value → (Entry → Loaded) → Loaded
load_value value_failed rest = load_failed
load_value value_panics rest = load_panics
load_value (entry e) rest = rest e

-- NamespaceManager.TopChanges: the rows of the n most recent changes of each namespace; `none` is an
-- error, for watchNamespaceConfigs one after all retries.
abbrev pub TopChanges : Type 0 → Type 0
TopChanges J = ℕ → Option (ChangeRows J)

-- the loop of NewAccessController
unfoldable pub preload_rows :
    {J : Type 0} → (J → Option NamespaceConfig) → Text → ChangeRows J → ConfigStore → Loaded
unfolding value
preload_rows unmarshal server_id [] store = loaded store
preload_rows unmarshal server_id (row ∷ rows) store =
    load_value (value unmarshal row)
      (λ e. preload_rows unmarshal server_id rows (apply_entry server_id e store))

abbrev pub preload_changes :
    {J : Type 0}
    → (J → Option NamespaceConfig)
    → Text
    → Option (ChangeRows J)
    → ConfigStore
    → Loaded
preload_changes unmarshal server_id none store = load_failed
preload_changes unmarshal server_id (some rows) store = preload_rows unmarshal server_id rows store

-- NewAccessController, from TopChanges to the end of its loop
unfoldable pub preload :
    {J : Type 0} → (J → Option NamespaceConfig) → Text → TopChanges J → ConfigStore → Loaded
unfolding preload_rows
preload unmarshal server_id top_changes store =
    preload_changes unmarshal server_id (top_changes 3) store

-- A round of watchNamespaceConfigs leaves a store, or panics.
pub data Watched : Type 0 where
  watched : ConfigStore → Watched
  watch_panics : Watched

abbrev pub watch_value : Value → ConfigStore → (Entry → Watched) → Watched
watch_value value_failed store rest = watched store
watch_value value_panics store rest = watch_panics
watch_value (entry e) store rest = rest e

-- its loop, which an error of Value breaks off
unfoldable pub watch_rows :
    {J : Type 0} → (J → Option NamespaceConfig) → Text → ChangeRows J → ConfigStore → Watched
unfolding value
watch_rows unmarshal server_id [] store = watched store
watch_rows unmarshal server_id (row ∷ rows) store =
    watch_value (value unmarshal row) store
      (λ e. watch_rows unmarshal server_id rows (apply_entry server_id e store))

abbrev pub watch_changes :
    {J : Type 0}
    → (J → Option NamespaceConfig)
    → Text
    → Option (ChangeRows J)
    → ConfigStore
    → Watched
watch_changes unmarshal server_id none store = watched store
watch_changes unmarshal server_id (some rows) store = watch_rows unmarshal server_id rows store

-- a round, from TopChanges on
unfoldable pub watch_round :
    {J : Type 0} → (J → Option NamespaceConfig) → Text → TopChanges J → ConfigStore → Watched
unfolding watch_rows
watch_round unmarshal server_id top_changes store =
    watch_changes unmarshal server_id (top_changes 3) store
