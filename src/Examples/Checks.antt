-- ===== src/Examples/Checks.antt =====
-- Checks on the sample node.
use access_controller.Prelude.{
  ℕ, ◌≡◌, refl, true, false, Option, none, some, List, [], ◌∷◌, arith, if◌then◌else◌, inl, inr, In,
  Bool-cases, map,
}
use access_controller.Map.{get, put}
use access_controller.Text.{Text, bytes, text_eq, text_ne}
use access_controller.Time.{Time, time_eq}
use access_controller.Status.{unknown}
use access_controller.Context.{background, with_timestamp, timestamp_of, checksum_of}
use access_controller.Config.{rewrite_from_config, Rewrite, self_rewrite, NamespaceConfig}
use access_controller.Snapshots.{get_snapshot, list_snapshots}
use access_controller.Choose.{
  choose, choose_among, smallest, common_timestamps, match_all, add_all, latest, select,
}
use access_controller.Check.{
  Node, check, check_step, check_rewrite, check_leaf, check_subjects, checksum_differs, pin,
}
use access_controller.Check.Types.{Query, Outcome, ok}
use access_controller.Check.Join.{finished, done, join}
use access_controller.Check.Proxy.{Peers, refused, proxy_trace, retry_fuel}
use access_controller.Check.Proxy.Retries.{IsBounded, retry_fuel-IsBounded}
use access_controller.Check.Rules.{Decides}
use access_controller.Check.Semantics.{Granted}
use access_controller.Check.Pins.{rules_at, config_of, config_at, time_at}
use access_controller.Check.Sound.{ArePeersRight, check-Decides}
use access_controller.Check.Total.{IsRanked, RuleFalls}
use access_controller.Check.Ends.{check_returns}
use access_controller.Check.Cycle.{IsSelfReferring, cycle_diverges}
use access_controller.Examples.Data.{
  at, doc, sample_node, sample_query, sample_tuples, sample_config,
}

runs : Query → Option Outcome
unfolding check check_step check_rewrite check_leaf check_subjects checksum_differs pin join get put
    text_eq time_eq with_timestamp timestamp_of checksum_of rewrite_from_config get_snapshot
    list_snapshots choose choose_among smallest common_timestamps match_all add_all latest select
runs q = check sample_node 3 background q

pub amy_views : check sample_node 3 background sample_query ≡ some (ok true)
unfolding runs
amy_views = refl

bob_does_not :
    check sample_node 3 background (record sample_query { user = bytes "bob" }) ≡ some (ok false)
unfolding runs
bob_does_not = refl

-- On a single node no peer ever answers.
pub alone-ArePeersRight : ArePeersRight sample_node background
alone-ArePeersRight = record { right = λ i node ctx q b e. cc }

check-Decides_example :
    Decides
      (Granted sample_tuples (rules_at sample_node background) sample_query)
      (check sample_node 3 background sample_query)
check-Decides_example = check-Decides sample_node 3 background sample_query alone-ArePeersRight

-- readme refers to team, and nothing else refers to anything.
rank : Query → ℕ
rank q = if text_eq q.object (bytes "readme") then 1 else 0

pub sample_rules :
    (relation : Text) (r : Rewrite)
    → rewrite_from_config relation (some sample_config) ≡ some r
    → r ≡ self_rewrite
unfolding rewrite_from_config
sample_rules relation r h = ground arith

never_done : (os : List (Option Outcome)) → ¬ In done (map finished os)
never_done [] h = h
never_done (o ∷ os) (inl e) = cc
never_done (o ∷ os) (inr h) = never_done os h

stored_config :
    (namespace : Text) (o : Option Time) (cfg : NamespaceConfig)
    → config_of sample_node namespace o ≡ some cfg
    → cfg ≡ sample_config
unfolding config_at get_snapshot get text_eq
stored_config namespace none cfg h = cc
stored_config namespace (some ts) cfg h = ground arith

self_rules :
    (relation : Text) (o : Option NamespaceConfig) (r : Rewrite)
    → ((cfg : NamespaceConfig) → o ≡ some cfg → cfg ≡ sample_config)
    → rewrite_from_config relation o ≡ some r
    → r ≡ self_rewrite
unfolding rewrite_from_config
self_rules relation none r only h = cc
self_rules relation (some cfg) r only h = sample_rules relation r (rw (only cfg refl) at h)

stored_rules :
    (q : Query) (r : Rewrite)
    → rules_at sample_node background q.namespace q.relation ≡ some r
    → r ≡ self_rewrite
unfolding rules_at config_at
stored_rules q r h =
    self_rules q.relation (config_at sample_node background q.namespace) r
      (stored_config q.namespace (time_at sample_node background q.namespace)) h

rank_falls : (q : Query) → RuleFalls sample_tuples rank self_rewrite q
unfolding rank text_eq
rank_falls q = elim (Bool-cases (text_eq q.object (bytes "readme"))) [
  | inl e ↦ rw e (omega arith)
  | inr e ↦ rw e (tt, tt)
]

sample-IsRanked : IsRanked sample_tuples (rules_at sample_node background) rank
sample-IsRanked = record { falls = λ q r h. rw (stored_rules q r h) (rank_falls q) }

check_returns_example : (r : Outcome) × (check sample_node 2 background sample_query ≡ some r)
unfolding rank text_eq
check_returns_example =
    check_returns sample_node background rank sample_query 2 sample-IsRanked (λ i node ctx q. cc)
      (omega arith)

-- loop#member names loop#member.
abbrev loop_query : Query
loop_query = record {
  namespace = doc;
  object = bytes "loop";
  relation = bytes "member";
  user = bytes "bob";
}

abbrev loop_node : Node
loop_node = record sample_node {
  tuples = record {
    row_count = λ o relations user. some 0;
    subject_sets = λ o relations.
        some (record { namespace = doc; object = bytes "loop"; relation = bytes "member" } ∷ []);
  };
}

loop-IsSelfReferring : IsSelfReferring loop_node background loop_query
unfolding runs
loop-IsSelfReferring = record {
  ts = at 5;
  after = record { checksum = none; timestamps = (doc, at 5) ∷ [] };
  cfg = sample_config;
  same_ring = λ c e. rw e refl;
  pinned = refl;
  defined = refl;
  plain = refl;
  local = refl;
  absent = refl;
  cyclic = refl;
  open_context = λ os h. never_done os h;
}

cycle_diverges_example : check loop_node 1000 background loop_query ≡ none
cycle_diverges_example = cycle_diverges loop_node background loop_query 1000 loop-IsSelfReferring

-- Every object is b's, and b is unavailable.
abbrev unavailable : Peers
unavailable = record {
  locate = λ i object. bytes "b";
  has_client = λ i node. true;
  call = λ i node ctx q. refused unknown;
}

retry_fuel-IsBounded_example :
    IsBounded unavailable
      (bytes "a")
      background
      sample_query
      7
      (proxy_trace unavailable (bytes "a") background sample_query retry_fuel)
unfolding text_eq
retry_fuel-IsBounded_example =
    retry_fuel-IsBounded unavailable (bytes "a") background sample_query
      (text_ne (bytes "b") (bytes "a") refl)
