-- ===== src/Manager/Saved.antt =====
-- GetConfig after UpsertConfig, and the operation that is logged.
use access_controller.Prelude.{◌<◌, ◌≡◌, refl, ap, inl, inr, true, some, In, arith}
use access_controller.Config.{NamespaceConfig}
use access_controller.Manager.{ConfigRow, Postgres, gives, outside, inside, upsert_config}
use access_controller.Manager.Newest.{IsNewest}
use access_controller.Manager.Stored.{
  KeepsConfigs, GivesConfig, upsert_config-row, newest-GivesConfig,
}

-- UpsertConfig in a transaction stores the config at NOW(), the time at which the transaction started.
-- If each row that the namespace had is older, then GetConfig gives the config that was written, in the
-- same transaction and, after a commit that succeeds, in a transaction of its own that begins on that
-- database, unless the query of GetConfig fails.
pub get_config-upsert_config :
    {D T J : Type 0} (p : Postgres D T J) (config : NamespaceConfig) (t u : T)
    (keeps : KeepsConfigs p)
    → ((r : ConfigRow J)
        → In r (keeps.table t)
        → r.namespace ≡ config.name
        → r.timestamp < keeps.now t)
    → upsert_config p config (inside t) ≡ (gives tt, inside u)
    → GivesConfig p config.name u (inside u) config
      × ((d : D) (v : T)
          → p.finish u ≡ (d, true)
          → p.begin d ≡ some v
          → GivesConfig p config.name v (outside d) config)
get_config-upsert_config {J} p config t u keeps before h =
    let (k, read, added) = upsert_config-row p keeps config t u h in
    let m : ConfigRow J = record { namespace = config.name; config = k; timestamp = keeps.now t } in
    let newest : IsNewest (keeps.table u) m = rw added (record {
      there = inl refl;
      older = λ r i e. elim i [ inl same ↦ inl same | inr j ↦ inr (before r j e) ];
    }) in
    (
      (newest-GivesConfig p keeps m u u config newest refl read).0,
      λ d v f b.
          (newest-GivesConfig p keeps m v u config newest (keeps.commits u v d f b) read).1 d b,
    )

-- If the newest row of the namespace is of a later time than the one at which the transaction started
-- (a transaction that started later was committed first), then GetConfig goes on giving the config of
-- that row after an UpsertConfig that succeeds, in the same transaction and after its commit, unless
-- the query of GetConfig fails: the config that was written last is not the latest one.
pub upsert_config_hidden :
    {D T J : Type 0} (p : Postgres D T J) (config later : NamespaceConfig) (m : ConfigRow J)
    (t u : T) (keeps : KeepsConfigs p)
    → IsNewest (keeps.table t) m
    → m.namespace ≡ config.name
    → keeps.now t < m.timestamp
    → p.unmarshal m.config ≡ some later
    → upsert_config p config (inside t) ≡ (gives tt, inside u)
    → GivesConfig p m.namespace u (inside u) later
      × ((d : D) (v : T)
          → p.finish u ≡ (d, true)
          → p.begin d ≡ some v
          → GivesConfig p m.namespace v (outside d) later)
upsert_config_hidden p config later m t u keeps newest_before name started read h =
    let (k, _, added) = upsert_config-row p keeps config t u h in
    let newest : IsNewest (keeps.table u) m = rw added (record {
      there = inr newest_before.there;
      older = λ r i e. elim i [
        | inl same ↦ let at = ap (λ x. x.timestamp) same in inr (omega arith)
        | inr j ↦ newest_before.older r j e
      ];
    }) in
    (
      (newest-GivesConfig p keeps m u u later newest refl read).0,
      λ d v f b.
          (newest-GivesConfig p keeps m v u later newest (keeps.commits u v d f b) read).1 d b,
    )
