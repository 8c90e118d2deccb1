-- ===== src/Check/Ends.antt =====
-- `check` returns, with enough fuel, if a rank falls along the references between relations and no
-- call of a peer hangs.
use access_controller.Prelude.{ℕ, zero, suc, ◌<◌, ◌≡◌, ◌≢◌, refl, Option, none, some, arith}
use access_controller.Text.{Text, text_eq}
use access_controller.Time.{Time}
use access_controller.Status.{internal_status}
use access_controller.Config.{NamespaceConfig, Rewrite, rewrite_from_config}
use access_controller.Snapshots.{get_snapshot}
use access_controller.Context.{Context, with_checksum}
use access_controller.Check.{
  Node, Call, check_rewrite, pin, checksum_differs, after_proxy, evaluate_rule, evaluate_config,
  evaluate_pinned, check_step, check,
}
use access_controller.Check.Types.{Query, Outcome, err}
use access_controller.Check.Proxy.Retries.{proxy_waits}
use access_controller.Check.Proxy.{Peers, hangs, Proxied, returned, evaluate, waiting, proxy}
use access_controller.Check.Pins.{
  SamePins, SamePins-trans, rules_at, rules_at-pin, pin_same, with_checksum_same,
}
use access_controller.Check.Total.{HasResult, IsRanked, if_HasResult, rule_HasResult}

-- Each call of a peer's Check gives a response or an error.
abbrev pub AreReplying : Peers → Type 0
AreReplying p = (i : ℕ) (node : Text) (ctx : Context) (q : Query) → p.call i node ctx q ≢ hangs

module _ (n : Node) (start : Context) (rank : Query → ℕ)
    (ranked : IsRanked n.tuples (rules_at n start) rank) (replying : AreReplying n.peers) where
  proxied_HasResult :
      (ctx : Context) (q : Query) (p : Proxied) (here : Option Outcome)
      → proxy n.peers n.server_id ctx q ≡ p
      → HasResult here
      → HasResult (after_proxy p here)
  proxied_HasResult ctx q (returned o) here e h = tt
  proxied_HasResult ctx q evaluate here e h = h
  proxied_HasResult ctx q waiting here e h =
      let (i, node, k) = proxy_waits n.peers n.server_id ctx q e in replying i node ctx q k

  module _ (call : Context → Call) (q : Query)
      (ready : (ctx : Context)
        → SamePins n start ctx
        → (p : Query) → rank p < rank q
        → HasResult (call ctx p)) where
    evaluate_rule-HasResult :
        (ctx : Context) (o : Option Rewrite)
        → SamePins n start ctx
        → rules_at n start q.namespace q.relation ≡ o
        → HasResult (evaluate_rule n call ctx q o)
    unfolding check_step
    evaluate_rule-HasResult ctx none same e = tt
    evaluate_rule-HasResult ctx (some r) same e =
        let ctx' = with_checksum ctx (n.ring_checksum 1 ctx q) in
        let same' =
          SamePins-trans n start ctx ctx' same
            (with_checksum_same n ctx (n.ring_checksum 1 ctx q)) in
        let here = check_rewrite n.scheduler (call ctx') n.tuples r q in
        if_HasResult (text_eq (n.peers.locate 0 q.object) n.server_id)
          (check_rewrite n.scheduler (call ctx) n.tuples r q)
          (after_proxy (proxy n.peers n.server_id ctx' q) here)
          (rule_HasResult n.tuples rank n.scheduler (call ctx) (rank q) (ready ctx same) r q refl
            (ranked.falls q r e))
          (proxied_HasResult ctx' q (proxy n.peers n.server_id ctx' q) here refl (
            rule_HasResult n.tuples rank n.scheduler (call ctx') (rank q) (ready ctx' same') r q
              refl (ranked.falls q r e)))

    evaluate_config-HasResult :
        (ctx : Context) (o : Option NamespaceConfig)
        → SamePins n start ctx
        → rules_at n start q.namespace q.relation ≡ rewrite_from_config q.relation o
        → HasResult (evaluate_config n call ctx q o)
    unfolding check_step
    evaluate_config-HasResult ctx none same e = tt
    evaluate_config-HasResult ctx (some cfg) same e =
        evaluate_rule-HasResult ctx (rewrite_from_config q.relation (some cfg)) same e

    evaluate_pinned-HasResult :
        (ctx : Context) (o : Option (Time × Context))
        → SamePins n start ctx
        → pin n ctx q.namespace ≡ o
        → HasResult (evaluate_pinned n call q o)
    unfolding check_step
    evaluate_pinned-HasResult ctx none same e = tt
    evaluate_pinned-HasResult ctx (some (ts, ctx')) same e =
        evaluate_config-HasResult ctx' (get_snapshot n.configs n.server_id q.namespace ts)
          (SamePins-trans n start ctx ctx' same (pin_same n ctx ctx' q.namespace ts e).1)
          (rules_at-pin n start ctx ctx' q.namespace q.relation ts same e)

    check_step-HasResult :
        (ctx : Context) → SamePins n start ctx → HasResult (check_step n call ctx q)
    unfolding check_step
    check_step-HasResult ctx same =
        if_HasResult (checksum_differs n ctx q) (some (err internal_status))
          (evaluate_pinned n call q (pin n ctx q.namespace)) tt
          (evaluate_pinned-HasResult ctx (pin n ctx q.namespace) same refl)

  fuel_HasResult :
      (fuel : ℕ) (ctx : Context)
      → SamePins n start ctx
      → (q : Query) → rank q < fuel
      → HasResult (check n fuel ctx q)
  unfolding check
  fuel_HasResult zero ctx same q h = absurd (omega arith)
  fuel_HasResult (suc fuel) ctx same q h =
      check_step-HasResult (check n fuel) q
        (λ ctx' same' p lt. fuel_HasResult fuel ctx' same' p (omega arith)) ctx same

result_of_HasResult : (o : Option Outcome) → HasResult o → (r : Outcome) × (o ≡ some r)
result_of_HasResult none h = absurd h
result_of_HasResult (some r) h = (r, refl)

-- If some rank of queries falls along every rule and every stored subject set, and each call of a
-- peer gives a response or an error, then `check` returns a Boolean or an error as soon as the fuel
-- exceeds the rank of the query, whatever the order of the children, the states of the ring and what
-- the peers answer.
pub check_returns :
    (n : Node) (ctx : Context) (rank : Query → ℕ) (q : Query) (fuel : ℕ)
    → IsRanked n.tuples (rules_at n ctx) rank
    → AreReplying n.peers
    → rank q < fuel
    → (r : Outcome) × (check n fuel ctx q ≡ some r)
check_returns n ctx rank q fuel ranked replying h =
    result_of_HasResult _
      (fuel_HasResult n ctx rank ranked replying fuel ctx (λ namespace. refl) q h)
