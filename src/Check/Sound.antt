-- ===== src/Check/Sound.antt =====
-- What `check` returns is right: the main theorem about the evaluation of requests.
use access_controller.Prelude.{
  ℕ, zero, suc, ◌≡◌, refl, sym, subst, ◌∙◌, Bool, true, false, Option, none, some, if◌then◌else◌,
}
use access_controller.Text.{Text, text_eq}
use access_controller.Time.{Time}
use access_controller.Config.{NamespaceConfig, Rewrite, rewrite_from_config}
use access_controller.Status.{internal_status}
use access_controller.Snapshots.{get_snapshot}
use access_controller.Context.{Context, with_checksum}
use access_controller.Check.{
  Node, Call, pin, checksum_differs, after_proxy, evaluate_rule, evaluate_config, evaluate_pinned,
  check_step, check, check_rewrite,
}
use access_controller.Check.Types.{Query, Outcome, ok, err}
use access_controller.Check.Proxy.{answered, Proxied, returned, evaluate, waiting, proxy}
use access_controller.Check.Proxy.Retries.{proxy_answered}
use access_controller.Check.Rules.{some_inj, Decides, Decides-iff}
use access_controller.Check.Rewrites.{check_rewrite-Decides}
use access_controller.Check.Semantics.{Granted, by_rule, Holds}
use access_controller.Check.Pins.{
  SamePins, SamePins-trans, rules_at, rules_at-pin, pin_same, with_checksum_same,
}

-- What is assumed of the other nodes: a Boolean that a peer answers is right for the rules by which
-- this request is evaluated. (Each peer runs the same code on the same tuples.)
pub record ArePeersRight (n : Node) (start : Context) : Type 0 where
  pub right :
      (i : ℕ) (node : Text) (ctx : Context) (q : Query) (b : Bool)
      → n.peers.call i node ctx q ≡ answered b
      → Decides (Granted n.tuples (rules_at n start) q) (some (ok b))

module _ (n : Node) (start : Context) (peers : ArePeersRight n start) where
  abbrev Right : Query → Option Outcome → Type 0
  Right q o = Decides (Granted n.tuples (rules_at n start) q) o

  Granted-inv :
      (q : Query) (r : Rewrite)
      → rules_at n start q.namespace q.relation ≡ some r
      → Granted n.tuples (rules_at n start) q
      → Holds n.tuples (rules_at n start) r q
  Granted-inv q r e (by_rule {r = s} p h) =
      subst (λ x. Holds n.tuples (rules_at n start) x q) (some_inj s r (sym p ∙ e)) h

  rule_decides :
      (call : Call) (q : Query) (r : Rewrite)
      → ((p : Query) → Right p (call p))
      → rules_at n start q.namespace q.relation ≡ some r
      → Right q (check_rewrite n.scheduler call n.tuples r q)
  rule_decides call q r right e =
      Decides-iff (check_rewrite n.scheduler call n.tuples r q) (by_rule e) (Granted-inv q r e)
        (check_rewrite-Decides n.tuples (rules_at n start) n.scheduler call right r q)

  proxied_decides :
      (ctx : Context) (q : Query) (p : Proxied) (here : Option Outcome)
      → proxy n.peers n.server_id ctx q ≡ p
      → Right q here
      → Right q (after_proxy p here)
  proxied_decides ctx q evaluate here e h = h
  proxied_decides ctx q waiting here e h = tt
  proxied_decides ctx q (returned (err f)) here e h = tt
  proxied_decides ctx q (returned (ok b)) here e h =
      let (i, node, answer) = proxy_answered n.peers n.server_id ctx q b e in
      peers.right i node ctx q b answer

  if-Right :
      (q : Query) (b : Bool) (t u : Option Outcome)
      → Right q t
      → Right q u
      → Right q (if b then t else u)
  if-Right q true t u ht hu = ht
  if-Right q false t u ht hu = hu

  module _ (call : Context → Call)
      (right : (ctx : Context) → SamePins n start ctx → (q : Query) → Right q (call ctx q)) where
    evaluate_rule_decides :
        (ctx : Context) (q : Query) (o : Option Rewrite)
        → SamePins n start ctx
        → rules_at n start q.namespace q.relation ≡ o
        → Right q (evaluate_rule n call ctx q o)
    unfolding check_step
    evaluate_rule_decides ctx q none same e = not_granted
      where
        not_granted : ¬ Granted n.tuples (rules_at n start) q
        not_granted (by_rule p h) = cc
    evaluate_rule_decides ctx q (some r) same e =
        let ctx' = with_checksum ctx (n.ring_checksum 1 ctx q) in
        let same' =
          SamePins-trans n start ctx ctx' same
            (with_checksum_same n ctx (n.ring_checksum 1 ctx q)) in
        let here = check_rewrite n.scheduler (call ctx') n.tuples r q in
        if-Right q (text_eq (n.peers.locate 0 q.object) n.server_id)
          (check_rewrite n.scheduler (call ctx) n.tuples r q)
          (after_proxy (proxy n.peers n.server_id ctx' q) here)
          (rule_decides (call ctx) q r (right ctx same) e)
          (proxied_decides ctx' q (proxy n.peers n.server_id ctx' q) here refl
            (rule_decides (call ctx') q r (right ctx' same') e))

    evaluate_config_decides :
        (ctx : Context) (q : Query) (o : Option NamespaceConfig)
        → SamePins n start ctx
        → rules_at n start q.namespace q.relation ≡ rewrite_from_config q.relation o
        → Right q (evaluate_config n call ctx q o)
    unfolding check_step
    evaluate_config_decides ctx q none same e = tt
    evaluate_config_decides ctx q (some cfg) same e =
        evaluate_rule_decides ctx q (rewrite_from_config q.relation (some cfg)) same e

    evaluate_pinned_decides :
        (ctx : Context) (q : Query) (o : Option (Time × Context))
        → SamePins n start ctx
        → pin n ctx q.namespace ≡ o
        → Right q (evaluate_pinned n call q o)
    unfolding check_step
    evaluate_pinned_decides ctx q none same e = tt
    evaluate_pinned_decides ctx q (some (ts, ctx')) same e =
        evaluate_config_decides ctx' q (get_snapshot n.configs n.server_id q.namespace ts)
          (SamePins-trans n start ctx ctx' same (pin_same n ctx ctx' q.namespace ts e).1)
          (rules_at-pin n start ctx ctx' q.namespace q.relation ts same e)

    check_step_decides :
        (ctx : Context) (q : Query) → SamePins n start ctx → Right q (check_step n call ctx q)
    unfolding check_step
    check_step_decides ctx q same =
        if-Right q (checksum_differs n ctx q) (some (err internal_status))
          (evaluate_pinned n call q (pin n ctx q.namespace)) tt
          (evaluate_pinned_decides ctx q (pin n ctx q.namespace) same refl)

  fuel_decides :
      (fuel : ℕ) (ctx : Context) → SamePins n start ctx → (q : Query) → Right q (check n fuel ctx q)
  unfolding check
  fuel_decides zero ctx same q = tt
  fuel_decides (suc fuel) ctx same q =
      check_step_decides (check n fuel) (fuel_decides fuel) ctx q same

-- If the peers' answers are right, a Boolean that `check` returns is right: true only if the tuples
-- and the rules of the request grant the relation, false only if they do not. It holds for every
-- order in which the children of a rule end, every state of the ring and the router at each look,
-- and every number of retries.
pub check-Decides :
    (n : Node) (fuel : ℕ) (ctx : Context) (q : Query)
    → ArePeersRight n ctx
    → Decides (Granted n.tuples (rules_at n ctx) q) (check n fuel ctx q)
check-Decides n fuel ctx q peers = fuel_decides n ctx peers fuel ctx (λ namespace. refl) q
