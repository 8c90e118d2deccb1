-- ===== src/Context.antt =====
-- What a request's context carries: the hash ring checksum of a peer (NewContextWithChecksum and
-- ChecksumFromContext of internal/hashring/hashring.go) and the config timestamp of each namespace
-- (NewContextWithNamespaceConfigTimestamp and NamespaceConfigTimestampFromContext of
-- internal/namespace-manager/namespacemgr.go).
use access_controller.Prelude.{ℕ, ◌≡◌, Option, none, some, [], if◌then◌else◌}
use access_controller.Map.{Map, get, put, get-put}
use access_controller.Text.{Text, text_eq, text_key}
use access_controller.Time.{Time}

pub record Context : Type 0 where
  pub checksum : Option ℕ
  pub timestamps : Map Text Time

-- context.Background()
abbrev pub background : Context
background = record { checksum = none; timestamps = [] }

unfoldable pub with_checksum : Context → ℕ → Context
with_checksum ctx sum = record ctx { checksum = some sum }

unfoldable pub checksum_of : Context → Option ℕ
checksum_of ctx = ctx.checksum

unfoldable pub with_timestamp : Context → Text → Time → Context
with_timestamp ctx namespace ts = record ctx { timestamps = put ctx.timestamps namespace ts }

unfoldable pub timestamp_of : Context → Text → Option Time
timestamp_of ctx namespace = get ctx.timestamps namespace

pub timestamp_of-with_timestamp :
    (ctx : Context) (namespace : Text) (ts : Time) (n : Text)
    → timestamp_of (with_timestamp ctx namespace ts) n
      ≡ (if text_eq namespace n then some ts else timestamp_of ctx n)
unfolding timestamp_of with_timestamp
timestamp_of-with_timestamp ctx namespace ts n = get-put ctx.timestamps namespace ts n
