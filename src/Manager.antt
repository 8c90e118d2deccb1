-- ===== src/Manager.antt =====
-- The namespace manager on Postgres (internal/namespace-manager/postgres/manager.go): withTransaction,
-- UpsertConfig, GetConfig, GetRewrite and LookupRelationReferencesByCount. WrapTransaction is
-- `wrap_transaction` of Handler/ConfigRpc.
--
-- The database and protojson, with its encoded configs `J`, are a parameter. A statement may fail and
-- still change the state of the transaction, which Postgres then aborts. What GetConfig selects of the
-- rows of "namespace-configs" is written out.
pub mod Stored
pub mod Saved
pub mod Rules
pub mod Newest
use access_controller.Prelude.{
  ltb, ◌==◌, ℕ, zero, suc, Bool, true, false, Option, none, some, List, [], ◌∷◌, if◌then◌else◌,
}
use access_controller.Map.{Map, put}
use access_controller.Text.{Text, text_key, text_eq}
use access_controller.Config.{Rewrite, self_rewrite, Relation, NamespaceConfig}
use access_controller.Handler.ConfigRpc.{TxnError, doesnt_exist, other_error}

-- NamespaceOperation
pub data Operation : Type 0 where
  add_namespace update_namespace : Operation

pub data Statement (J : Type 0) : Type 0 where
  -- CREATE TABLE IF NOT EXISTS
  create_table : Text → Statement J
  -- INSERT INTO "namespace-configs" and "namespace-changelog", at NOW()
  insert_config : Text → J → Statement J
  insert_change : Text → Operation → J → Statement J

-- A row of "namespace-configs"; the timestamp is an instant.
pub record ConfigRow (J : Type 0) : Type 0 where
  pub namespace : Text
  pub config : J
  pub timestamp : ℕ

-- What QueryRow and Scan give for GetConfig: the JSON, sql.ErrNoRows, or another error.
pub data Latest (J : Type 0) : Type 0 where
  json_found : J → Latest J
  no_rows query_failed : Latest J

-- WHERE namespace = $1
unfoldable pub of_namespace : {J : Type 0} → Text → List (ConfigRow J) → List (ConfigRow J)
of_namespace namespace [] = []
of_namespace namespace (r ∷ rows) =
    if text_eq r.namespace namespace
    then r ∷ of_namespace namespace rows
    else of_namespace namespace rows

-- MAX(timestamp)
unfoldable pub max_timestamp : {J : Type 0} → List (ConfigRow J) → ℕ
max_timestamp [] = 0
max_timestamp (r ∷ rows) =
    let m = max_timestamp rows in if ltb m r.timestamp then r.timestamp else m

-- the first row whose timestamp is `m`
unfoldable pub first_at : {J : Type 0} → ℕ → List (ConfigRow J) → Latest J
first_at m [] = no_rows
first_at m (r ∷ rows) =
    let rest = first_at m rows in if r.timestamp == m then json_found r.config else rest

-- SELECT config … WHERE namespace = $1 AND timestamp = (SELECT MAX(timestamp) … WHERE namespace = $1)
unfoldable pub select_latest : {J : Type 0} → Text → Option (List (ConfigRow J)) → Latest J
unfolding of_namespace max_timestamp first_at
select_latest namespace none = query_failed
select_latest namespace (some rows) =
    first_at (max_timestamp (of_namespace namespace rows)) (of_namespace namespace rows)

-- sql.DB and sql.Tx, on a database `D` and one with an open transaction `T`, and protojson.
pub record Postgres (D T J : Type 0) : Type 0 where
  pub begin : D → Option T
  -- Commit: the database after it, and whether it succeeds
  pub finish : T → D × Bool
  -- SELECT COUNT(namespace)
  pub count_configs : Text → T → Option ℕ × T
  -- the rows of "namespace-configs" that a query reads; `none` is a query that fails
  pub config_rows : T → Option (List (ConfigRow J)) × T
  -- Exec: whether it succeeds; the builder's ToSQL does not fail on these statements
  pub run : Statement J → T → Bool × T
  -- SELECT relation, COUNT(*) … GROUP BY relation; `none` is a row that Scan refuses
  pub count_references : Text → List Text → T → Option (List (Option (Text × ℕ))) × T
  pub marshal : NamespaceConfig → Option J
  pub unmarshal : J → Option NamespaceConfig

-- A value, or an error that is not nil.
pub data Answer (A : Type 0) : Type 0 where
  gives : A → Answer A
  errs : TxnError → Answer A

-- The context: without a transaction, or with the one under txnKey.
pub data Scope (D T : Type 0) : Type 0 where
  outside : D → Scope D T
  inside : T → Scope D T

-- The body of a transaction.
abbrev pub Body : Type 0 → Type 0 → Type 0
Body T A = T → Answer A × T

abbrev next : {T A B : Type 0} → Answer A × T → (A → Body T B) → Answer B × T
next (gives a, t) f = f a t
next (errs e, t) f = (errs e, t)

infixl 5 ◌>>=◌ ◌>>◌
abbrev pub ◌>>=◌ : {T A B : Type 0} → Body T A → (A → Body T B) → Body T B
◌>>=◌ m f t = next (m t) f

abbrev pub ◌>>◌ : {T B : Type 0} → Body T (Unit {0}) → Body T B → Body T B
m >> k = m >>= λ _. k

abbrev pub give : {T A : Type 0} → A → Body T A
give a t = (gives a, t)

abbrev scanned : {T A : Type 0} → Option A × T → Answer A × T
scanned (none, t) = (errs other_error, t)
scanned (some a, t) = (gives a, t)

-- a query whose every error is returned
abbrev ask : {T A : Type 0} → (T → Option A × T) → Body T A
ask query t = scanned (query t)

module _ {D T J : Type 0} (p : Postgres D T J) where
  executed : Bool × T → Answer (Unit {0}) × T
  executed (true, t) = (gives tt, t)
  executed (false, t) = (errs other_error, t)

  unfoldable pub exec : Statement J → Body T (Unit {0})
  unfolding executed
  exec statement t = executed (p.run statement t)

  after_body : {A : Type 0} → Answer A × T → Answer A × Scope D T
  after_body (a, t) = (a, inside t)

  after_commit : {A : Type 0} → Answer A → D × Bool → Answer A × Scope D T
  after_commit a (d, committed) = (a, outside d)

  close : {A : Type 0} → Answer A × T → Answer A × Scope D T
  unfolding after_commit
  close (a, t) = after_commit a (p.finish t)

  begun : {A : Type 0} → Body T A → D → Option T → Answer A × Scope D T
  unfolding close
  begun fn d none = (errs other_error, outside d)
  begun fn d (some t) = close (fn t)

  -- withTransaction: the deferred Commit runs whatever `fn` returns, and its error is not returned
  unfoldable pub with_transaction : {A : Type 0} → Body T A → Scope D T → Answer A × Scope D T
  unfolding begun after_body
  with_transaction fn (inside t) = after_body (fn t)
  with_transaction fn (outside d) = begun fn d (p.begin d)

  -- the operation, and the table of a namespace that is new
  unfoldable pub add_or_update : Text → ℕ → Body T Operation
  unfolding exec
  add_or_update name zero = do exec (create_table name); give add_namespace
  add_or_update name (suc n) = give update_namespace

  -- the function that UpsertConfig runs in a transaction
  unfoldable pub upsert_body : Text → J → Body T (Unit {0})
  unfolding add_or_update exec
  upsert_body name json = do
    count ← ask (p.count_configs name)
    operation ← add_or_update name count
    exec (insert_config name json)
    exec (insert_change name operation json)

  marshalled : Text → Option J → Scope D T → Answer (Unit {0}) × Scope D T
  unfolding with_transaction
  marshalled name none s = (errs other_error, s)
  marshalled name (some json) s = with_transaction (upsert_body name json) s

  -- UpsertConfig
  unfoldable pub upsert_config : NamespaceConfig → Scope D T → Answer (Unit {0}) × Scope D T
  unfolding marshalled
  upsert_config config s = marshalled config.name (p.marshal config) s

  found_json : Latest J → Answer J
  found_json (json_found json) = gives json
  found_json no_rows = errs doesnt_exist
  found_json query_failed = errs other_error

  scan_latest : Text → Option (List (ConfigRow J)) × T → Answer J × T
  unfolding found_json select_latest
  scan_latest namespace (rows, t) = (found_json (select_latest namespace rows), t)

  unfoldable pub get_body : Text → Body T J
  unfolding scan_latest
  get_body namespace t = scan_latest namespace (p.config_rows t)

  decoded : Option NamespaceConfig → Answer NamespaceConfig
  decoded none = errs other_error
  decoded (some config) = gives config

  decode : Answer J × Scope D T → Answer NamespaceConfig × Scope D T
  unfolding decoded
  decode (errs e, s) = (errs e, s)
  decode (gives json, s) = (decoded (p.unmarshal json), s)

  -- GetConfig
  unfoldable pub get_config : Text → Scope D T → Answer NamespaceConfig × Scope D T
  unfolding decode
  get_config namespace s = decode (with_transaction (get_body namespace) s)

-- an unset rewrite is read as a union of _this
abbrev or_this : Option Rewrite → Rewrite
or_this none = self_rewrite
or_this (some rewrite) = rewrite

-- the loop of GetRewrite
unfoldable pub find_rule : Text → List Relation → Option Rewrite
find_rule relation [] = none
find_rule relation (r ∷ relations) =
    if text_eq r.name relation then some (or_this r.rewrite) else find_rule relation relations

module _ {D T J : Type 0} (p : Postgres D T J) where
  rewrite_in : Text → Answer NamespaceConfig × Scope D T → Answer (Option Rewrite) × Scope D T
  rewrite_in relation (errs e, s) = (errs e, s)
  rewrite_in relation (gives config, s) = (gives (find_rule relation config.relations), s)

  -- GetRewrite
  unfoldable pub get_rewrite : Text → Text → Scope D T → Answer (Option Rewrite) × Scope D T
  unfolding rewrite_in
  get_rewrite namespace relation s = rewrite_in relation (get_config p namespace s)

  -- the loop over the rows of LookupRelationReferencesByCount
  unfoldable pub read_counts : List (Option (Text × ℕ)) → Map Text ℕ → Answer (Map Text ℕ)
  read_counts [] references = gives references
  read_counts (none ∷ rows) references = errs other_error
  read_counts (some (relation, count) ∷ rows) references =
      read_counts rows (put references relation count)

  counted : Option (List (Option (Text × ℕ))) × T → Answer (Map Text ℕ) × T
  counted (none, t) = (errs other_error, t)
  counted (some rows, t) = (read_counts rows [], t)

  -- LookupRelationReferencesByCount
  unfoldable pub lookup_references : Text → List Text → Scope D T → Answer (Map Text ℕ) × Scope D T
  unfolding counted
  lookup_references namespace relations s =
      with_transaction p (λ t. counted (p.count_references namespace relations t)) s
