-- ===== src/Changelog/Replayed.antt =====
-- What a node's store holds after it has read the recent changes of the changelog.
use access_controller.Prelude.{
  ◌≡◌, refl, sym, ◌∙◌, ap, ◌⊎◌, inl, inr, ◌&&◌, false, Option, none, some, List, [], ◌∷◌,
  if◌then◌else◌, Bool-cases,
}
use access_controller.Text.{Text, text_eq, text_eq_iff}
use access_controller.Time.{Time, time_eq, round_utc}
use access_controller.Config.{NamespaceConfig}
use access_controller.Snapshots.{ConfigStore, get_snapshot}
use access_controller.Snapshots.Laws.{get_snapshot-set_snapshot}
use access_controller.Manager.{Operation, add_namespace, update_namespace}
use access_controller.Changelog.{
  ChangeRows, Entry, Value, entry, value_failed, value_panics, operation_text, read_operation,
  value, apply_entry, Loaded, loaded, load_value, preload_rows, preload_changes, preload,
  watch_changes, TopChanges, Watched, watched, watch_value, watch_rows, watch_round,
}

-- The config of the last entry for the namespace and the normalised timestamp, or else `before`.
abbrev pub latest_entry : List Entry → Text → Time → Option NamespaceConfig → Option NamespaceConfig
latest_entry [] namespace ts before = before
latest_entry (e ∷ es) namespace ts before = latest_entry es namespace ts (
    if text_eq e.namespace namespace && time_eq (round_utc e.timestamp) ts
    then some e.config
    else before)

-- The entries, one after the other, in the store of the node.
abbrev replay : Text → List Entry → ConfigStore → ConfigStore
replay server_id [] store = store
replay server_id (e ∷ es) store = replay server_id es (apply_entry server_id e store)

replay-get_snapshot :
    (server_id : Text) (es : List Entry) (store : ConfigStore) (namespace : Text) (ts : Time)
    → get_snapshot (replay server_id es store) server_id namespace ts
      ≡ latest_entry es namespace ts (get_snapshot store server_id namespace ts)
unfolding apply_entry
replay-get_snapshot server_id [] store namespace ts = refl
replay-get_snapshot server_id (e ∷ es) store namespace ts =
    replay-get_snapshot server_id es (apply_entry server_id e store) namespace ts
    ∙ ap (latest_entry es namespace ts) (
        get_snapshot-set_snapshot store server_id e.namespace e.config e.timestamp server_id
          namespace ts
        ∙ rw ((text_eq_iff server_id server_id).1 refl) refl)

replay_others :
    (server_id : Text) (es : List Entry) (store : ConfigStore) (p namespace : Text) (ts : Time)
    → text_eq server_id p ≡ false
    → get_snapshot (replay server_id es store) p namespace ts ≡ get_snapshot store p namespace ts
unfolding apply_entry
replay_others server_id [] store p namespace ts h = refl
replay_others server_id (e ∷ es) store p namespace ts h =
    replay_others server_id es (apply_entry server_id e store) p namespace ts h
    ∙ get_snapshot-set_snapshot store server_id e.namespace e.config e.timestamp p namespace ts
    ∙ rw h refl

-- A row is read as an entry.
abbrev pub AreEntries :
    {J : Type 0} → (J → Option NamespaceConfig) → ChangeRows J → List Entry → Type 0
AreEntries unmarshal [] [] = Unit
AreEntries unmarshal (row ∷ rows) (e ∷ es) =
    (value unmarshal row ≡ entry e) × AreEntries unmarshal rows es
AreEntries unmarshal _ _ = ⊥

module _ {J : Type 0} (unmarshal : J → Option NamespaceConfig) (server_id : Text) where
  load_value-loaded :
      (v : Value) (rest : Entry → Loaded) (s : ConfigStore)
      → load_value v rest ≡ loaded s
      → (e : Entry) × (v ≡ entry e) × (rest e ≡ loaded s)
  load_value-loaded value_failed rest s h = cc
  load_value-loaded value_panics rest s h = cc
  load_value-loaded (entry e) rest s h = (e, refl, h)

  preload-AreEntries :
      (rows : ChangeRows J) (store s : ConfigStore)
      → preload_rows unmarshal server_id rows store ≡ loaded s
      → (es : List Entry) × AreEntries unmarshal rows es × (s ≡ replay server_id es store)
  unfolding preload_rows
  preload-AreEntries [] store s h = ([], tt, cc)
  preload-AreEntries (row ∷ rows) store s h =
      let (e, v, h') = load_value-loaded (value unmarshal row) _ s h in
      let (es, all, same) = preload-AreEntries rows (apply_entry server_id e store) s h' in
      (e ∷ es, (v, all), same)

  preload_changes-loaded :
      (o : Option (ChangeRows J)) (store s : ConfigStore)
      → preload_changes unmarshal server_id o store ≡ loaded s
      → (rows : ChangeRows J) × (o ≡ some rows)
        × (preload_rows unmarshal server_id rows store ≡ loaded s)
  preload_changes-loaded none store s h = cc
  preload_changes-loaded (some rows) store s h = (rows, refl, h)

  watch_value-watched :
      (v : Value) (store : ConfigStore) (rest : Entry → Watched) (s : ConfigStore)
      → watch_value v store rest ≡ watched s
      → ((v ≡ value_failed) × (s ≡ store)) ⊎ ((e : Entry) × (v ≡ entry e) × (rest e ≡ watched s))
  watch_value-watched value_failed store rest s h = inl (refl, cc)
  watch_value-watched value_panics store rest s h = cc
  watch_value-watched (entry e) store rest s h = inr (e, refl, h)

  -- Which entries a round applies depends on the rows alone: those before the first row that cannot
  -- be read.
  watch_rows-replay :
      (rows : ChangeRows J) (store s : ConfigStore)
      → watch_rows unmarshal server_id rows store ≡ watched s
      → (es : List Entry) × ((x : ConfigStore)
          → watch_rows unmarshal server_id rows x ≡ watched (replay server_id es x))
        × (s ≡ replay server_id es store)
  unfolding watch_rows
  watch_rows-replay [] store s h = ([], λ x. refl, cc)
  watch_rows-replay (row ∷ rows) store s h =
      elim (watch_value-watched (value unmarshal row) store _ s h) [
        | inl (v, e) ↦ ([], λ x. rw v refl, e)
        | inr (e, v, h') ↦
            let (es, all, same) = watch_rows-replay rows (apply_entry server_id e store) s h' in
            (e ∷ es, λ x. rw v (all (apply_entry server_id e x)), same)
      ]

  watch_changes-replay :
      (rows : Option (ChangeRows J)) (store s : ConfigStore)
      → watch_changes unmarshal server_id rows store ≡ watched s
      → (es : List Entry) × ((x : ConfigStore)
          → watch_changes unmarshal server_id rows x ≡ watched (replay server_id es x))
        × (s ≡ replay server_id es store)
  watch_changes-replay none store s h = ([], λ x. refl, cc)
  watch_changes-replay (some rows) store s h = watch_rows-replay rows store s h

-- Some entry is for the key, or none is.
latest_entry-cases :
    (es : List Entry) (namespace : Text) (ts : Time)
    → ((o : Option NamespaceConfig) × ((b : Option NamespaceConfig)
          → latest_entry es namespace ts b ≡ o))
      ⊎ ((b : Option NamespaceConfig) → latest_entry es namespace ts b ≡ b)
latest_entry-cases [] namespace ts = inr (λ b. refl)
latest_entry-cases (e ∷ es) namespace ts = elim (latest_entry-cases es namespace ts) [
  | inl (o, all) ↦ inl (o, λ b. all _)
  | inr id ↦
      elim (Bool-cases (text_eq e.namespace namespace && time_eq (round_utc e.timestamp) ts)) [
        | inl yes_here ↦ inl (some e.config, λ b. id _ ∙ rw yes_here refl)
        | inr not_here ↦ inr (λ b. id _ ∙ rw not_here refl)
      ]
]

latest_entry_twice :
    (es : List Entry) (namespace : Text) (ts : Time) (b : Option NamespaceConfig)
    → latest_entry es namespace ts (latest_entry es namespace ts b) ≡ latest_entry es namespace ts b
latest_entry_twice es namespace ts b = elim (latest_entry-cases es namespace ts) [
  | inl (o, all) ↦ all _ ∙ sym (all b)
  | inr id ↦ id _
]

-- NewAccessController gets to the end of its loop only if TopChanges, asked for the three most recent
-- changes of each namespace, gives rows and each of these rows can be read. Then the store has for this node,
-- under each namespace and each normalised timestamp, the config of the last of these rows that is for
-- them, and what it had where none is; the snapshots of other peers are as before.
pub preload-get_snapshot :
    {J : Type 0} (unmarshal : J → Option NamespaceConfig) (server_id : Text)
    (top_changes : TopChanges J) (store s : ConfigStore)
    → preload unmarshal server_id top_changes store ≡ loaded s
    → (rows : ChangeRows J) × (es : List Entry) × (top_changes 3 ≡ some rows)
      × AreEntries unmarshal rows es
      × ((namespace : Text) (ts : Time)
          → get_snapshot s server_id namespace ts
            ≡ latest_entry es namespace ts (get_snapshot store server_id namespace ts))
      × ((p namespace : Text) (ts : Time)
          → text_eq server_id p ≡ false
          → get_snapshot s p namespace ts ≡ get_snapshot store p namespace ts)
unfolding preload
preload-get_snapshot unmarshal server_id top_changes store s h =
    let (rows, asked, h') = preload_changes-loaded unmarshal server_id (top_changes 3) store s h in
    let (es, all, same) = preload-AreEntries unmarshal server_id rows store s h' in
    (
      rows,
      es,
      asked,
      all,
      λ namespace ts. rw same (replay-get_snapshot server_id es store namespace ts),
      λ p namespace ts ne. rw same (replay_others server_id es store p namespace ts ne),
    )

-- Reading the same rows of the changelog again changes no lookup of this node's snapshots: a second
-- round does not panic where the first one did not, and leaves every config as it is, also where the
-- round stops at a row that cannot be read.
pub watch_round_twice :
    {J : Type 0} (unmarshal : J → Option NamespaceConfig) (server_id : Text)
    (top_changes : TopChanges J) (store s : ConfigStore)
    → watch_round unmarshal server_id top_changes store ≡ watched s
    → (s' : ConfigStore) × (watch_round unmarshal server_id top_changes s ≡ watched s')
      × ((namespace : Text) (ts : Time)
          → get_snapshot s' server_id namespace ts ≡ get_snapshot s server_id namespace ts)
unfolding watch_round
watch_round_twice unmarshal server_id top_changes store s h =
    let (es, all, same) = watch_changes-replay unmarshal server_id (top_changes 3) store s h in
    (
      replay server_id es s,
      all s,
      λ namespace ts.
          let first : get_snapshot s server_id namespace ts
              ≡ latest_entry es namespace ts (get_snapshot store server_id namespace ts) =
            rw same (replay-get_snapshot server_id es store namespace ts) in
          replay-get_snapshot server_id es s namespace ts
          ∙ ap (latest_entry es namespace ts) first
          ∙ latest_entry_twice es namespace ts _
          ∙ sym first,
    )

-- An entry that UpsertConfig has logged is read as an entry of the same operation, with the config
-- that its JSON stands for, and does not panic.
pub value-operation_text :
    {J : Type 0} (unmarshal : J → Option NamespaceConfig) (namespace : Text) (json : J)
    (operation : Operation) (config : NamespaceConfig) (ts : Time)
    → unmarshal json ≡ some config
    → value unmarshal (
        some (record {
          namespace = namespace;
          operation = operation_text operation;
          config = json;
          timestamp = ts;
        }))
      ≡ entry
          (record { namespace = namespace; operation = operation; config = config; timestamp = ts })
unfolding value operation_text read_operation text_eq
value-operation_text unmarshal namespace json add_namespace config ts e = rw e refl
value-operation_text unmarshal namespace json update_namespace config ts e = rw e refl
