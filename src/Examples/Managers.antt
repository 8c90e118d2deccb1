-- ===== src/Examples/Managers.antt =====
-- A database of configs with a clock, and the changelog of one config.
use access_controller.Prelude.{
  suc, ◌<◌, inl, inr, In, arith, ℕ, ◌≡◌, refl, sym, ap, ◌∙◌, Bool, true, Option, some, List, [],
  ◌∷◌,
}
use access_controller.Text.{Text, bytes, text_eq, text_key}
use access_controller.Time.{Time, round_utc}
use access_controller.Config.{NamespaceConfig, rewrite_from_config, self_rewrite}
use access_controller.Snapshots.{ConfigStore, empty_store, get_snapshot, set_snapshot}
use access_controller.Handler.ConfigRpc.{TxnError}
use access_controller.Manager.{
  Statement, insert_config, ConfigRow, of_namespace, select_latest, Postgres, gives, errs, outside,
  inside, with_transaction, upsert_body, upsert_config, get_body, get_config, find_rule,
  get_rewrite,
}
use access_controller.Manager.Stored.{KeepsConfigs, GivesConfig}
use access_controller.Manager.Saved.{get_config-upsert_config, upsert_config_hidden}
use access_controller.Manager.Rules.{get_rewrite-get_config}
use access_controller.Manager.Newest.{IsNewest}
use access_controller.Changelog.{
  ChangeRow, ChangeRows, value, read_operation, apply_entry, loaded, preload_rows, preload, watched,
  watch_rows, watch_round,
}
use access_controller.Changelog.Replayed.{watch_round_twice}
use access_controller.Changelog.Recent.{
  count_newer, top_rows, top_changes, AreDated, HoldsRecent, preload-HoldsRecent,
}
use access_controller.Examples.Data.{at, doc, sample_config}

abbrev Rows : Type 0
Rows = List (ConfigRow NamespaceConfig)

-- The rows of "namespace-configs" and the clock: the time at which a transaction starts.
abbrev State : Type 0
State = Rows × ℕ

counted : Rows → ℕ
counted [] = 0
counted (r ∷ rows) = suc (counted rows)

inserted : Statement NamespaceConfig → State → State
inserted (insert_config name config) (rows, clock) =
    (record { namespace = name; config = config; timestamp = clock } ∷ rows, clock)
inserted _ s = s

abbrev sample_postgres : Postgres State State NamespaceConfig
sample_postgres = record {
  begin = λ d. some (d.0, suc d.1);
  finish = λ t. (t, true);
  count_configs = λ name t. (some (counted (of_namespace name t.0)), t);
  config_rows = λ t. (some t.0, t);
  run = λ s t. (true, inserted s t);
  count_references = λ namespace relations t. (some [], t);
  marshal = some;
  unmarshal = some;
}

same_state : {a b : Bool} {t u : State} → ◌≡◌ {A = Bool × State} (a, t) (b, u) → t ≡ u
same_state e = ap (λ p. p.1) e

same_database : {a b : Bool} {t u : State} → ◌≡◌ {A = State × Bool} (t, a) (u, b) → t ≡ u
same_database e = ap (λ p. p.0) e

started : (d u : State) → ◌≡◌ {A = Option State} (some (d.0, suc d.1)) (some u) → u.0 ≡ d.0
started d u e = let same : (d.0, suc d.1) ≡ u = cc in sym (ap (λ x. x.0) same)

sample-KeepsConfigs : KeepsConfigs sample_postgres
unfolding inserted
sample-KeepsConfigs = record {
  table = λ t. t.0;
  now = λ t. t.1;
  asks = λ t rows e r. let same : t.0 ≡ rows = cc in rw same (λ h. h, λ h. h);
  counts = λ name t. (refl, refl);
  creates =
      λ name t u e. let same = same_state e in (ap (λ x. x.0) (sym same), ap (λ x. x.1) (sym same));
  saves = λ name config t u e. (config, refl, ap (λ x. x.0) (sym (same_state e)));
  logs = λ namespace config operation t u e. ap (λ x. x.0) (sym (same_state e));
  commits = λ t u d e b. started d u b ∙ ap (λ x. x.0) (sym (same_database e));
  reads = λ config json e. let same : config ≡ json = cc in ap some (sym same);
}

-- A config without relations.
abbrev bare_config : NamespaceConfig
bare_config = record sample_config { relations = [] }

-- The row of the namespace, at 4.
abbrev old_row : ConfigRow NamespaceConfig
old_row = record { namespace = doc; config = bare_config; timestamp = 4 }

abbrev saved_rows : ℕ → Rows
saved_rows time =
    record { namespace = doc; config = sample_config; timestamp = time } ∷ old_row ∷ []

written :
    upsert_config sample_postgres sample_config (inside (old_row ∷ [], 5))
    ≡ (gives tt, inside (saved_rows 5, 5))
unfolding upsert_config upsert_body counted of_namespace inserted with_transaction text_eq
written = refl

older_rows :
    (r : ConfigRow NamespaceConfig) → In r (old_row ∷ []) → r.namespace ≡ doc → r.timestamp < 5
older_rows r (inl same) e = let time = ap (λ x. x.timestamp) same in omega arith
older_rows r (inr h) e = absurd h

get_config-upsert_config_example :
    GivesConfig sample_postgres doc (saved_rows 5, 5) (inside (saved_rows 5, 5)) sample_config
    × ((d v : State)
        → ◌≡◌ {A = State × Bool} ((saved_rows 5, 5), true) (d, true)
        → ◌≡◌ {A = Option State} (some (d.0, suc d.1)) (some v)
        → GivesConfig sample_postgres doc v (outside d) sample_config)
unfolding sample-KeepsConfigs
get_config-upsert_config_example =
    get_config-upsert_config sample_postgres sample_config (old_row ∷ [], 5) (saved_rows 5, 5)
      sample-KeepsConfigs older_rows written

-- The transaction started at 3, before the row of 4 was committed.
written_late :
    upsert_config sample_postgres sample_config (inside (old_row ∷ [], 3))
    ≡ (gives tt, inside (saved_rows 3, 3))
unfolding upsert_config upsert_body counted of_namespace inserted with_transaction text_eq
written_late = refl

only_row : IsNewest (old_row ∷ []) old_row
only_row = record {
  there = inl refl;
  older = λ r h e. elim h [ inl same ↦ inl same | inr k ↦ absurd k ];
}

upsert_config_hidden_example :
    GivesConfig sample_postgres doc (saved_rows 3, 3) (inside (saved_rows 3, 3)) bare_config
    × ((d v : State)
        → ◌≡◌ {A = State × Bool} ((saved_rows 3, 3), true) (d, true)
        → ◌≡◌ {A = Option State} (some (d.0, suc d.1)) (some v)
        → GivesConfig sample_postgres doc v (outside d) bare_config)
unfolding sample-KeepsConfigs
upsert_config_hidden_example =
    upsert_config_hidden sample_postgres sample_config bare_config old_row (old_row ∷ [], 3)
      (saved_rows 3, 3) sample-KeepsConfigs only_row refl (omega arith) refl written_late

get_rewrite-get_config_example :
    ((config : NamespaceConfig)
      → (get_config sample_postgres doc (outside (saved_rows 5, 5))).0 ≡ gives config
      → (get_rewrite sample_postgres doc (bytes "viewer") (outside (saved_rows 5, 5))).0
        ≡ gives (rewrite_from_config (bytes "viewer") (some config)))
    × ((e : TxnError)
        → (get_config sample_postgres doc (outside (saved_rows 5, 5))).0 ≡ errs e
        → (get_rewrite sample_postgres doc (bytes "viewer") (outside (saved_rows 5, 5))).0 ≡ errs e)
get_rewrite-get_config_example =
    get_rewrite-get_config sample_postgres doc (bytes "viewer") (outside (saved_rows 5, 5))

viewer_rule :
    (get_rewrite sample_postgres doc (bytes "viewer") (outside (saved_rows 5, 5))).0
    ≡ gives (some self_rewrite)
unfolding get_rewrite get_config get_body find_rule select_latest text_eq with_transaction
viewer_rule = refl

abbrev sample_rows : ChangeRows NamespaceConfig
sample_rows =
    some (record {
      namespace = doc;
      operation = bytes "ADD";
      config = sample_config;
      timestamp = at 5;
    })
    ∷ []

abbrev preloaded : ConfigStore
preloaded = set_snapshot empty_store (bytes "a") doc sample_config (at 5)

-- The changelog of two changes.
abbrev change_at : ℕ → ChangeRow NamespaceConfig
change_at time = record {
  namespace = doc;
  operation = bytes "ADD";
  config = sample_config;
  timestamp = at time;
}

abbrev changelog : List (ChangeRow NamespaceConfig)
changelog = change_at 5 ∷ change_at 6 ∷ []

changelog-AreDated : AreDated changelog
unfolding round_utc
changelog-AreDated r x i j n t =
    let same = ap (λ (time : Time). time.instant) t in
    elim i [
      | inl e ↦ elim j [
        | inl f ↦ e ∙ sym f
        | inr (inl f) ↦ absurd (apart r x e f same)
        | inr (inr k) ↦ absurd k
      ]
      | inr (inl e) ↦ elim j [
        | inl f ↦ absurd (apart x r f e (sym same))
        | inr (inl f) ↦ e ∙ sym f
        | inr (inr k) ↦ absurd k
      ]
      | inr (inr k) ↦ absurd k
    ]
  where
    apart :
        (r x : ChangeRow NamespaceConfig)
        → r ≡ change_at 5
        → x ≡ change_at 6
        → ¬ (r.timestamp.instant ≡ x.timestamp.instant)
    apart r x e f same =
        let a = ap (λ (y : ChangeRow NamespaceConfig). y.timestamp.instant) e in
        let b = ap (λ (y : ChangeRow NamespaceConfig). y.timestamp.instant) f in omega arith

abbrev both_loaded : ConfigStore
both_loaded = set_snapshot preloaded (bytes "a") doc sample_config (at 6)

changelog_loaded :
    preload some (bytes "a") (top_changes (λ rows. rows) changelog) empty_store ≡ loaded both_loaded
unfolding preload preload_rows read_operation text_eq apply_entry value top_rows count_newer
changelog_loaded = refl

preload-HoldsRecent_example : HoldsRecent some (bytes "a") changelog empty_store both_loaded
preload-HoldsRecent_example =
    preload-HoldsRecent some (bytes "a") (λ rows. rows) changelog empty_store both_loaded
      (λ rows r. (λ h. h, λ h. h)) changelog-AreDated changelog_loaded

sample_round : watch_round some (bytes "a") (λ n. some sample_rows) empty_store ≡ watched preloaded
unfolding watch_round watch_rows read_operation text_eq apply_entry value
sample_round = refl

watch_round_twice_example :
    (s : ConfigStore) × (watch_round some (bytes "a") (λ n. some sample_rows) preloaded ≡ watched s)
    × ((namespace : Text) (ts : Time)
        → get_snapshot s (bytes "a") namespace ts ≡ get_snapshot preloaded (bytes "a") namespace ts)
watch_round_twice_example =
    watch_round_twice some (bytes "a") (λ n. some sample_rows) empty_store preloaded sample_round
