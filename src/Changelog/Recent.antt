-- ===== src/Changelog/Recent.antt =====
-- What NewAccessController loads from the changelog of Postgres: the query of TopChanges
-- (internal/namespace-manager/postgres/manager.go), and the rows that it selects.
use access_controller.Prelude.{
  ℕ, suc, ◌<◌, ◌≡◌, refl, sym, subst, ap, ◌∙◌, ◌↔◌, inl, inr, ◌&&◌, Bool, true, false, Option, none,
  some, List, [], ◌∷◌, map, if◌then◌else◌, In, arith, ltb, Bool-cases,
}
use access_controller.Text.{Text, text_eq, text_eq_iff}
use access_controller.Time.{Time, after, time_eq, time_eq_iff, round_utc}
use access_controller.Config.{NamespaceConfig}
use access_controller.Snapshots.{ConfigStore, get_snapshot}
use access_controller.Manager.{Operation}
use access_controller.Changelog.{
  ChangeRow, Entry, entry, TopChanges, read_operation, with_config, with_operation, value, loaded,
  preload,
}
use access_controller.Changelog.Replayed.{latest_entry, AreEntries, preload-get_snapshot}

module _ {J : Type 0} where
  -- how many rows of the namespace have a later timestamp
  unfoldable pub count_newer : ChangeRow J → List (ChangeRow J) → ℕ
  count_newer r [] = 0
  count_newer r (x ∷ rows) =
      let rest = count_newer r rows in
      if text_eq x.namespace r.namespace && after x.timestamp r.timestamp then suc rest else rest

  -- the rows of `rows` whose timestamp is one of the first n of their namespace's in the table, from
  -- the latest on: "timestamp" IN (SELECT … ORDER BY "timestamp" DESC LIMIT $1)
  unfoldable pub top_rows : ℕ → List (ChangeRow J) → List (ChangeRow J) → List (ChangeRow J)
  top_rows n table [] = []
  top_rows n table (r ∷ rows) =
      let rest = top_rows n table rows in if ltb (count_newer r table) n then r ∷ rest else rest

  -- TopChanges, on the rows of "namespace-changelog", if its query does not fail; `order` is ORDER BY
  -- "namespace", "timestamp"
  abbrev pub top_changes :
      (List (ChangeRow J) → List (ChangeRow J)) → List (ChangeRow J) → TopChanges J
  top_changes order table n = some (map some (order (top_rows n table table)))

  In-top_rows :
      (n : ℕ) (table rows : List (ChangeRow J)) (r : ChangeRow J)
      → In r (top_rows n table rows) ↔ (In r rows × (count_newer r table < n))
  unfolding top_rows
  In-top_rows n table [] r = (λ h. absurd h, λ h. absurd (h.0))
  In-top_rows n table (x ∷ rows) r =
      let rest = In-top_rows n table rows r in
      elim (Bool-cases (ltb (count_newer x table) n)) [
        | inl b ↦ rw b (
          λ h. elim h [
            | inl e ↦ (inl e, rw e (ground arith))
            | inr k ↦ let (i, few) = rest.0 k in (inr i, few)
          ],
          λ (h, few). elim h [ inl e ↦ inl e | inr i ↦ inr (rest.1 (i, few)) ],
        )
        | inr b ↦ rw b (
          λ k. let (i, few) = rest.0 k in (inr i, few),
          λ (h, few). elim h [
            | inl e ↦
                let same : count_newer r table ≡ count_newer x table =
                  ap (λ y. count_newer y table) e in
                absurd (ground arith)
            | inr i ↦ rest.1 (i, few)
          ],
        )
      ]

  -- The timestamps of a namespace stand once.
  abbrev pub AreDated : List (ChangeRow J) → Type 0
  AreDated table =
      (r x : ChangeRow J)
      → In r table
      → In x table
      → r.namespace ≡ x.namespace
      → round_utc r.timestamp ≡ round_utc x.timestamp
      → r ≡ x

  module _ (unmarshal : J → Option NamespaceConfig) where
    -- An entry that is read of a row is for the row's namespace and timestamp.
    value_key :
        (r : ChangeRow J) (e : Entry)
        → value unmarshal (some r) ≡ entry e
        → (e.namespace ≡ r.namespace) × (e.timestamp ≡ r.timestamp)
    unfolding value
    value_key r e h = operation_key (read_operation r.operation) h
      where
        config_key :
            (o : Operation) (c : Option NamespaceConfig)
            → with_config r o c ≡ entry e
            → (e.namespace ≡ r.namespace) × (e.timestamp ≡ r.timestamp)
        config_key o none k = cc
        config_key o (some c) k = (cc, cc)

        operation_key :
            (o : Option Operation)
            → with_operation unmarshal r o ≡ entry e
            → (e.namespace ≡ r.namespace) × (e.timestamp ≡ r.timestamp)
        operation_key none k = cc
        operation_key (some o) k = config_key o (unmarshal r.config) k

    row_entry :
        (rows : List (ChangeRow J)) (es : List Entry) (r : ChangeRow J)
        → AreEntries unmarshal (map some rows) es
        → In r rows
        → (e : Entry) × In e es × (value unmarshal (some r) ≡ entry e)
    row_entry (x ∷ rows) (e ∷ es) r all (inl same) = (e, inl refl, rw same (all.0))
    row_entry (x ∷ rows) (e ∷ es) r all (inr i) =
        let (f, k, v) = row_entry rows es r all.1 i in (f, inr k, v)
    row_entry [] es r all i = absurd i
    row_entry (x ∷ rows) [] r all i = absurd all

    entry_row :
        (rows : List (ChangeRow J)) (es : List Entry) (e : Entry)
        → AreEntries unmarshal (map some rows) es
        → In e es
        → (r : ChangeRow J) × In r rows × (value unmarshal (some r) ≡ entry e)
    entry_row (x ∷ rows) (f ∷ es) e all (inl same) = (x, inl refl, rw same (all.0))
    entry_row (x ∷ rows) (f ∷ es) e all (inr i) =
        let (r, k, v) = entry_row rows es e all.1 i in (r, inr k, v)
    entry_row rows [] e all i = absurd i
    entry_row [] (f ∷ es) e all i = absurd all

-- The entry is for the namespace and the normalised timestamp.
abbrev is_for : Entry → Text → Time → Bool
is_for e namespace ts = text_eq e.namespace namespace && time_eq (round_utc e.timestamp) ts

is_for_iff :
    (e : Entry) (namespace : Text) (ts : Time)
    → (is_for e namespace ts ≡ true) ↔ ((e.namespace ≡ namespace) × (round_utc e.timestamp ≡ ts))
is_for_iff e namespace ts =
    ground (arith, text_eq_iff e.namespace namespace, time_eq_iff (round_utc e.timestamp) ts)

entry_config : (e f : Entry) → entry e ≡ entry f → e.config ≡ f.config
entry_config e f h = cc

latest_kept :
    (es : List Entry) (namespace : Text) (ts : Time) (before : Option NamespaceConfig)
    (o : Option NamespaceConfig)
    → ((e : Entry) → In e es → is_for e namespace ts ≡ true → some e.config ≡ o)
    → before ≡ o
    → latest_entry es namespace ts before ≡ o
latest_kept [] namespace ts before o all h = h
latest_kept (e ∷ es) namespace ts before o all h = elim (Bool-cases (is_for e namespace ts)) [
  | inl b ↦ rw b (latest_kept es namespace ts _ o (λ x i. all x (inr i)) (all e (inl refl) b))
  | inr b ↦ rw b (latest_kept es namespace ts before o (λ x i. all x (inr i)) h)
]

latest_found :
    (es : List Entry) (namespace : Text) (ts : Time) (before : Option NamespaceConfig) (f : Entry)
    (o : Option NamespaceConfig)
    → In f es
    → is_for f namespace ts ≡ true
    → ((e : Entry) → In e es → is_for e namespace ts ≡ true → some e.config ≡ o)
    → latest_entry es namespace ts before ≡ o
latest_found [] namespace ts before f o i b all = absurd i
latest_found (e ∷ es) namespace ts before f o (inl same) b all =
    let own : is_for e namespace ts ≡ true = subst (λ x. is_for x namespace ts ≡ true) same b in
    rw own (latest_kept es namespace ts _ o (λ x i. all x (inr i)) (all e (inl refl) own))
latest_found (e ∷ es) namespace ts before f o (inr i) b all =
    latest_found es namespace ts _ f o i b (λ x j. all x (inr j))

-- The entry of each of the three most recent rows is held under its namespace and timestamp; a key of
-- none of them is as before, and so are the other peers.
pub record HoldsRecent {J : Type 0} (unmarshal : J → Option NamespaceConfig) (server_id : Text)
    (table : List (ChangeRow J)) (store s : ConfigStore) : Type 0 where
  pub recent :
      (r : ChangeRow J)
      → In r table
      → count_newer r table < 3
      → (e : Entry) × (value unmarshal (some r) ≡ entry e)
        × (get_snapshot s server_id r.namespace (round_utc r.timestamp) ≡ some e.config)
  pub older :
      (namespace : Text) (ts : Time)
      → ((r : ChangeRow J)
          → In r table
          → count_newer r table < 3
          → r.namespace ≡ namespace
          → ¬ (round_utc r.timestamp ≡ ts))
      → get_snapshot s server_id namespace ts ≡ get_snapshot store server_id namespace ts
  pub others :
      (p namespace : Text) (ts : Time)
      → text_eq server_id p ≡ false
      → get_snapshot s p namespace ts ≡ get_snapshot store p namespace ts

-- NewAccessController gets to the end of its loop over the changelog of Postgres, in which the
-- timestamps of a namespace stand once, only if each row with fewer than three later rows of its
-- namespace can be read. Then the store has for this node, under the namespace and the normalised
-- timestamp of each of these rows, the row's config, and for every other namespace and timestamp what
-- it had; the snapshots of other peers are as before.
pub preload-HoldsRecent :
    {J : Type 0} (unmarshal : J → Option NamespaceConfig) (server_id : Text)
    (order : List (ChangeRow J) → List (ChangeRow J)) (table : List (ChangeRow J))
    (store s : ConfigStore)
    → ((rows : List (ChangeRow J)) (r : ChangeRow J) → In r (order rows) ↔ In r rows)
    → AreDated table
    → preload unmarshal server_id (top_changes order table) store ≡ loaded s
    → HoldsRecent unmarshal server_id table store s
preload-HoldsRecent {J} unmarshal server_id order table store s ordered dated h =
    let top = top_rows 3 table table in
    let (rows, es, asked, all, own, others) =
      preload-get_snapshot unmarshal server_id (top_changes order table) store s h in
    let read : AreEntries unmarshal (map some (order top)) es =
      let same : rows ≡ map some (order top) = cc in
      subst (λ x. AreEntries unmarshal x es) same all in
    let inside = λ (r : ChangeRow J). In-top_rows 3 table table r in
    record {
      recent = λ r i few.
          let (f, k, v) =
            row_entry unmarshal (order top) es r read ((ordered top r).1 ((inside r).1 (i, few))) in
          let (n, t) = value_key unmarshal r f v in
          (
            f,
            v,
            own r.namespace (round_utc r.timestamp)
                ∙ latest_found es r.namespace (round_utc r.timestamp) _ f (some f.config) k
                    ((is_for_iff f r.namespace (round_utc r.timestamp)).1 (n, ap round_utc t))
                    (λ e j b.
                      let (x, m, w) = entry_row unmarshal (order top) es e read j in
                      let (n', t') = value_key unmarshal x e w in
                      let (there, _) = (inside x).0 ((ordered top x).0 m) in
                      let (a, c) = (is_for_iff e r.namespace (round_utc r.timestamp)).0 b in
                      let same : r ≡ x = dated r x i there (sym a ∙ n') (sym c ∙ ap round_utc t') in
                      ap some (
                        entry_config e f
                          (sym w ∙ ap (λ y. value unmarshal (some y)) (sym same) ∙ v))),
          );
      older = λ namespace ts absent.
          own namespace ts
          ∙ latest_kept es namespace ts _ _
              (λ e j b.
                let (x, m, w) = entry_row unmarshal (order top) es e read j in
                let (n, t) = value_key unmarshal x e w in
                let (there, few) = (inside x).0 ((ordered top x).0 m) in
                let (a, c) = (is_for_iff e namespace ts).0 b in
                absurd (absent x there few (sym n ∙ a) (ap round_utc (sym t) ∙ c)))
              refl;
      others = others;
    }
