-- ===== src/Manager/Stored.antt =====
-- The rows of "namespace-configs" that an UpsertConfig leaves, and what GetConfig reads of them.
use access_controller.Prelude.{
  ℕ, zero, suc, ◌≡◌, refl, sym, subst, ap, ◌∙◌, ◌↔◌, ◌⊎◌, inl, inr, Bool, true, false, Option, none,
  some, Option-cases, List, ◌∷◌, In,
}
use access_controller.Text.{Text}
use access_controller.Config.{NamespaceConfig}
use access_controller.Manager.{
  Operation, create_table, insert_config, insert_change, ConfigRow, json_found, select_latest,
  scan_latest, Postgres, Answer, gives, errs, Scope, outside, inside, Body, next, scanned, exec,
  with_transaction, add_or_update, upsert_body, upsert_config, get_body, get_config, after_body,
  close, begun, marshalled, decode, executed,
}
use access_controller.Manager.Newest.{IsNewest, select_latest-newest}

-- The same rows, in whatever order.
abbrev pub SameRows : {J : Type 0} → List (ConfigRow J) → List (ConfigRow J) → Type 0
SameRows {J} a b = (r : ConfigRow J) → In r a ↔ In r b

-- What Postgres documents of "namespace-configs": the rows that a transaction sees, `table`, and its
-- NOW(), which is the time at which it started. A query that does not fail reads those rows; INSERT
-- adds one row at NOW(), with the JSON or one that reads as the same config (the column is a jsonb);
-- the other statements leave the rows as they are; a transaction that begins on a database to which
-- another was committed sees the rows of that one; and protojson reads back what it has written.
pub record KeepsConfigs {D T J : Type 0} (p : Postgres D T J) : Type 0 where
  pub table : T → List (ConfigRow J)
  pub now : T → ℕ
  pub asks :
      (t : T) (rows : List (ConfigRow J))
      → (p.config_rows t).0 ≡ some rows
      → SameRows rows (table t)
  pub counts :
      (name : Text) (t : T)
      → (table (p.count_configs name t).1 ≡ table t) × (now (p.count_configs name t).1 ≡ now t)
  pub creates :
      (name : Text) (t u : T)
      → p.run (create_table name) t ≡ (true, u)
      → (table u ≡ table t) × (now u ≡ now t)
  pub saves :
      (name : Text) (json : J) (t u : T)
      → p.run (insert_config name json) t ≡ (true, u)
      → (k : J) × (p.unmarshal k ≡ p.unmarshal json)
        × (table u ≡ record { namespace = name; config = k; timestamp = now t } ∷ table t)
  pub logs :
      (namespace : Text) (json : J) (operation : Operation) (t u : T)
      → p.run (insert_change namespace operation json) t ≡ (true, u)
      → table u ≡ table t
  pub commits : (t u : T) (d : D) → p.finish t ≡ (d, true) → p.begin d ≡ some u → table u ≡ table t
  pub reads :
      (config : NamespaceConfig) (json : J)
      → p.marshal config ≡ some json
      → p.unmarshal json ≡ some config

-- What a sequence that gives a value was made of.
next-gives :
    {T A B : Type 0} (m : Answer A × T) (f : A → Body T B) (b : B) (u : T)
    → next m f ≡ (gives b, u)
    → (a : A) × (t : T) × (m ≡ (gives a, t)) × (f a t ≡ (gives b, u))
next-gives (gives a, t) f b u h = (a, t, refl, h)
next-gives (errs e, t) f b u h = cc

IsNewest-same :
    {J : Type 0} (a b : List (ConfigRow J)) (m : ConfigRow J)
    → SameRows a b
    → IsNewest b m
    → IsNewest a m
IsNewest-same a b m same newest = record {
  there = (same m).1 newest.there;
  older = λ r h e. newest.older r ((same r).0 h) e;
}

-- GetConfig of the namespace, where the transaction that it runs in is in state `t`, gives the config
-- or its query fails.
abbrev pub GivesConfig :
    {D T J : Type 0} → Postgres D T J → Text → T → Scope D T → NamespaceConfig → Type 0
GivesConfig p name t scope config =
    ((p.config_rows t).0 ≡ none) ⊎ ((get_config p name scope).0 ≡ gives config)

module _ {D T J : Type 0} (p : Postgres D T J) where
  scanned_state :
      {A : Type 0} (r : Option A × T) (a : A) (u : T) → scanned r ≡ (gives a, u) → r.1 ≡ u
  scanned_state (some b, t) a u h = cc
  scanned_state (none, t) a u h = cc

  executed-gives : (r : Bool × T) (u : T) → executed p r ≡ (gives tt, u) → r ≡ (true, u)
  unfolding exec
  executed-gives (true, t) u h = cc
  executed-gives (false, t) u h = cc

  decode_lem :
      (s : Answer J × Scope D T) (k : J) (config : NamespaceConfig)
      → s.0 ≡ gives k
      → p.unmarshal k ≡ some config
      → (decode p s).0 ≡ gives config
  unfolding get_config
  decode_lem (gives j, s) k config e f = let same : j ≡ k = cc in rw same (rw f refl)
  decode_lem (errs x, s) k config e f = cc

  scan_latest_lem :
      (name : Text) (r : Option (List (ConfigRow J)) × T) (k : J)
      → select_latest name r.0 ≡ json_found k
      → (scan_latest p name r).0 ≡ gives k
  unfolding get_body
  scan_latest_lem name (rows, t) k e = rw e refl

  close_value : {A : Type 0} (r : Answer A × T) → (close p r).0 ≡ r.0
  unfolding with_transaction
  close_value (a, t) = refl

  get_config-json :
      (name : Text) (k : J) (t : T) (config : NamespaceConfig)
      → select_latest name (p.config_rows t).0 ≡ json_found k
      → p.unmarshal k ≡ some config
      → ((get_config p name (inside t)).0 ≡ gives config)
        × ((d : D) → p.begin d ≡ some t → (get_config p name (outside d)).0 ≡ gives config)
  unfolding get_config get_body with_transaction
  get_config-json name k t config e f =
      let found = scan_latest_lem name (p.config_rows t) k e in
      (
        decode_lem (after_body p (get_body p name t)) k config found f,
        λ d b.
            decode_lem (begun p (get_body p name) d (p.begin d)) k config
              (rw b (close_value (get_body p name t) ∙ found)) f,
      )

  marshalled_lem :
      (name : Text) (o : Option J) (t u : T)
      → marshalled p name o (inside t) ≡ (gives tt, inside u)
      → (json : J) × (o ≡ some json) × (upsert_body p name json t ≡ (gives tt, u))
  unfolding upsert_config with_transaction
  marshalled_lem name none t u h = cc
  marshalled_lem name (some json) t u h = (json, refl, within (upsert_body p name json t) h)
    where
      within :
          (r : Answer (Unit {0}) × T) → after_body p r ≡ (gives tt, inside u) → r ≡ (gives tt, u)
      within (a, v) k = cc

  module _ (keeps : KeepsConfigs p) where
    open keeps use {table, now}

    -- Adding the namespace's table, if it is new, touches no config.
    add_or_update_same :
        (name : Text) (count : ℕ) (t u : T) (operation : Operation)
        → add_or_update p name count t ≡ (gives operation, u)
        → (table u ≡ table t) × (now u ≡ now t)
    unfolding add_or_update exec
    add_or_update_same name zero t u operation h =
        let (_, v, e, h1) = next-gives (executed p (p.run (create_table name) t)) _ operation u h in
        let same : v ≡ u = cc in
        subst (λ x. (table x ≡ table t) × (now x ≡ now t)) same
          (keeps.creates name t v (executed-gives _ v e))
    add_or_update_same name (suc n) t u operation h =
        let same : t ≡ u = cc in (ap table (sym same), ap now (sym same))

    -- A successful UpsertConfig in a transaction has added one row at NOW(), which reads as the config.
    pub upsert_config-row :
        (config : NamespaceConfig) (t u : T)
        → upsert_config p config (inside t) ≡ (gives tt, inside u)
        → (k : J) × (p.unmarshal k ≡ some config)
          × (table u ≡ record { namespace = config.name; config = k; timestamp = now t } ∷ table t)
    unfolding upsert_config upsert_body exec
    upsert_config-row config t u h =
        let name = config.name in
        let (json, m, body) = marshalled_lem name (p.marshal config) t u h in
        let (count, t1, e1, h1) = next-gives (scanned (p.count_configs name t)) _ tt u body in
        let (operation, t2, e2, h2) = next-gives (add_or_update p name count t1) _ tt u h1 in
        let (_, t3, e3, h3) =
          next-gives (executed p (p.run (insert_config name json) t2)) _ tt u h2 in
        let first : (table t1 ≡ table t) × (now t1 ≡ now t) =
          subst (λ x. (table x ≡ table t) × (now x ≡ now t)) (scanned_state _ count t1 e1)
            (keeps.counts name t) in
        let second = add_or_update_same name count t1 t2 operation e2 in
        let (k, same, added) = keeps.saves name json t2 t3 (executed-gives _ t3 e3) in
        let logged = keeps.logs name json operation t3 u (executed-gives _ u h3) in
        (
          k,
          same ∙ keeps.reads config json m,
          logged ∙ added ∙ (rw (second.0 ∙ first.0, second.1 ∙ first.1) refl),
        )

    -- The config of the newest row is what GetConfig gives, now and after the commit.
    pub newest-GivesConfig :
        (m : ConfigRow J) (t u : T) (config : NamespaceConfig)
        → IsNewest (table u) m
        → table t ≡ table u
        → p.unmarshal m.config ≡ some config
        → GivesConfig p m.namespace t (inside t) config
          × ((d : D) → p.begin d ≡ some t → GivesConfig p m.namespace t (outside d) config)
    newest-GivesConfig m t u config newest same read = elim (Option-cases (p.config_rows t).0) [
      | inl e ↦ (inl e, λ d b. inl e)
      | inr (rows, e) ↦
          let asked : SameRows rows (table u) = subst (SameRows rows) same (keeps.asks t rows e) in
          let found : select_latest m.namespace (p.config_rows t).0 ≡ json_found m.config =
            ap (select_latest m.namespace) e
            ∙ select_latest-newest rows m (IsNewest-same rows (table u) m asked newest) in
          let (within, beyond) = get_config-json m.namespace m.config t config found read in
          (inr within, λ d b. inr (beyond d b))
    ]
