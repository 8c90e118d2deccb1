-- ===== src/Check/Pins.antt =====
-- The config at which each namespace is evaluated: the one that the context pins, or the one that
-- is chosen and pinned.
use access_controller.Prelude.{ℕ, ◌≡◌, refl, ap, ◌∙◌, Option, none, some, arith}
use access_controller.Text.{Text, text_eq_iff}
use access_controller.Time.{Time}
use access_controller.Config.{NamespaceConfig, rewrite_from_config}
use access_controller.Snapshots.{get_snapshot}
use access_controller.Choose.{ConfigSnapshot, choose}
use access_controller.Context.{
  Context, timestamp_of, checksum_of, with_timestamp, with_checksum, timestamp_of-with_timestamp,
}
use access_controller.Check.{Node, pin, pin_at}
use access_controller.Check.Semantics.{Rules}

-- The timestamp of a namespace under a context, if it has one.
abbrev time_of : Option Time → Option ConfigSnapshot → Option Time
time_of (some ts) chosen = some ts
time_of none none = none
time_of none (some s) = some s.timestamp

unfoldable pub time_at : Node → Context → Text → Option Time
time_at n ctx namespace = time_of (timestamp_of ctx namespace) (choose n.configs namespace)

unfoldable pub config_of : Node → Text → Option Time → Option NamespaceConfig
config_of n namespace none = none
config_of n namespace (some ts) = get_snapshot n.configs n.server_id namespace ts

unfoldable pub config_at : Node → Context → Text → Option NamespaceConfig
unfolding config_of
config_at n ctx namespace = config_of n namespace (time_at n ctx namespace)

-- The rules by which a request with this context is evaluated on the node.
unfoldable pub rules_at : Node → Context → Rules
rules_at n ctx namespace relation = rewrite_from_config relation (config_at n ctx namespace)

-- Two contexts under which every namespace has one timestamp.
abbrev pub SamePins : Node → Context → Context → Type 0
SamePins n a b = (namespace : Text) → time_at n a namespace ≡ time_at n b namespace

pub rules_at_same :
    (n : Node) (a b : Context) (namespace relation : Text)
    → SamePins n a b
    → rules_at n a namespace relation ≡ rules_at n b namespace relation
unfolding rules_at config_at
rules_at_same n a b namespace relation h =
    ap (λ o. rewrite_from_config relation (config_of n namespace o)) (h namespace)

pin_at_same :
    (n : Node) (ctx ctx' : Context) (namespace : Text) (ts : Time) (o : Option Time)
    → timestamp_of ctx namespace ≡ o
    → pin_at n ctx namespace o ≡ some (ts, ctx')
    → (time_at n ctx namespace ≡ some ts) × SamePins n ctx ctx'
unfolding pin time_at
pin_at_same n ctx ctx' namespace ts (some t) e h = (ground arith, λ m. ground arith)
pin_at_same n ctx ctx' namespace ts none e h = (
  ground arith,
  λ m. ground (arith, timestamp_of-with_timestamp ctx namespace ts m, text_eq_iff namespace m),
)

-- The pinned timestamp is the namespace's, and pinning changes no namespace's timestamp.
pub pin_same :
    (n : Node) (ctx ctx' : Context) (namespace : Text) (ts : Time)
    → pin n ctx namespace ≡ some (ts, ctx')
    → (time_at n ctx namespace ≡ some ts) × SamePins n ctx ctx'
unfolding pin
pin_same n ctx ctx' namespace ts h =
    pin_at_same n ctx ctx' namespace ts (timestamp_of ctx namespace) refl h

chosen_again :
    (n : Node) (ctx after : Context) (namespace : Text) (ts : Time) (o : Option Time)
    → timestamp_of ctx namespace ≡ o
    → pin_at n ctx namespace o ≡ some (ts, after)
    → (timestamp_of after namespace ≡ some ts) × (checksum_of after ≡ checksum_of ctx)
unfolding pin checksum_of with_timestamp
chosen_again n ctx after namespace ts (some t) e h = (ground arith, ground arith)
chosen_again n ctx after namespace ts none e h = (
  ground (
    arith,
    timestamp_of-with_timestamp ctx namespace ts namespace,
    text_eq_iff namespace namespace,
  ),
  ground arith,
)

-- A context in which a namespace has been pinned stays as it is when the namespace is pinned again,
-- and it carries the checksum that it carried before.
pub pin_again :
    (n : Node) (ctx after : Context) (namespace : Text) (ts : Time)
    → pin n ctx namespace ≡ some (ts, after)
    → (pin n after namespace ≡ some (ts, after)) × (checksum_of after ≡ checksum_of ctx)
unfolding pin pin_at
pin_again n ctx after namespace ts h =
    let (e, c) = chosen_again n ctx after namespace ts (timestamp_of ctx namespace) refl h in
    (rw e refl, c)

pub with_checksum_same :
    (n : Node) (ctx : Context) (sum : ℕ) → SamePins n ctx (with_checksum ctx sum)
unfolding time_at with_checksum timestamp_of
with_checksum_same n ctx sum namespace = refl

-- The rule that `check` finds through the pinned timestamp is that of the rules of the request.
pub rules_at-pin :
    (n : Node) (start ctx ctx' : Context) (namespace relation : Text) (ts : Time)
    → SamePins n start ctx
    → pin n ctx namespace ≡ some (ts, ctx')
    → rules_at n start namespace relation
      ≡ rewrite_from_config relation (get_snapshot n.configs n.server_id namespace ts)
unfolding rules_at config_at
rules_at-pin n start ctx ctx' namespace relation ts same h =
    ap (λ o. rewrite_from_config relation (config_of n namespace o))
      (same namespace ∙ (pin_same n ctx ctx' namespace ts h).0)

pub SamePins-trans : (n : Node) (a b c : Context) → SamePins n a b → SamePins n b c → SamePins n a c
SamePins-trans n a b c h k namespace = h namespace ∙ k namespace
