-- ===== src/Check/Proxy.antt =====
-- The part of AccessController.check (internal/access-controller.go) that sends the request to the
-- node which owns the object, with its retries.
pub mod Retries
use access_controller.Prelude.{ℕ, zero, suc, Bool, true, false, List, [], ◌∷◌, ltb, if◌then◌else◌}
use access_controller.Text.{Text, text_eq}
use access_controller.Status.{Code, canceled, unknown, Failure, internal_status}
use access_controller.Context.{Context}
use access_controller.Check.Types.{Query, Outcome, ok, err}

-- What a call of a peer's Check gives: a response with `allowed`, no response and an error with this
-- status code, or, as the call has no deadline of its own, nothing: it blocks for ever.
pub data Reply : Type 0 where
  answered : Bool → Reply
  refused : Code → Reply
  hangs : Reply

-- The hash ring, the router and the peers, as seen at the i-th look in one request:
-- Hashring.LocateKey, whether RPCRouter.GetClient succeeds, and CheckServiceClient.Check.
pub record Peers : Type 0 where
  pub locate : ℕ → Text → Text
  pub has_client : ℕ → Text → Bool
  pub call : ℕ → Text → Context → Query → Reply

-- What comes of the attempt to ask the owner: `check` returns, goes on at the label EVAL, or waits
-- for ever in a call.
pub data Proxied : Type 0 where
  returned : Outcome → Proxied
  evaluate waiting : Proxied

-- An attempt, with the nodes that were called, in order. `unfinished`: the fuel ran out.
pub data Attempt : Type 0 where
  ended : Proxied → Attempt
  unfinished : Attempt

abbrev pub Trace : Type 0
Trace = List Text × Attempt

abbrev called : Text → Trace → Trace
called node t = (node ∷ t.0, t.1)

is_canceled : Code → Bool
is_canceled canceled = true
is_canceled _ = false

module _ (p : Peers) (self : Text) (ctx : Context) (q : Query) where
  -- the loop `for retries := 0; err != nil && status.Code(err) != codes.Canceled; retries++`, at its
  -- test; the reply is that of the last call, and the error of a missing client has code Unknown
  unfoldable pub retry : ℕ → ℕ → Reply → Trace
  unfolding is_canceled
  retry zero retries reply = ([], unfinished)
  retry (suc fuel) retries (answered b) = ([], ended (returned (ok b)))
  retry (suc fuel) retries hangs = ([], ended waiting)
  retry (suc fuel) retries (refused code) =
      let owner = p.locate (suc retries) q.object in
      let missing = retry fuel (suc retries) (refused unknown) in
      let again = called owner (retry fuel (suc retries) (p.call (suc retries) owner ctx q)) in
      if is_canceled code
      then ([], ended evaluate)
      else if ltb 5 retries
      then ([], ended evaluate)
      else if text_eq owner self
      then ([], ended evaluate)
      else if p.has_client (suc retries) owner
      then again
      else missing

  -- from the first GetClient to the label EVAL, for an object that another node owns
  unfoldable pub proxy_trace : ℕ → Trace
  unfolding retry
  proxy_trace fuel =
      let owner = p.locate 0 q.object in
      if p.has_client 0 owner
      then called owner (retry fuel 0 (p.call 0 owner ctx q))
      else ([], ended (returned (err internal_status)))

-- Rounds enough for the loop, which makes at most six more calls (Check/Proxy/Retries).
abbrev pub retry_fuel : ℕ
retry_fuel = 7

abbrev result_of : Attempt → Proxied
result_of (ended r) = r
result_of unfinished = evaluate

unfoldable pub proxy : Peers → Text → Context → Query → Proxied
unfolding proxy_trace
proxy p self ctx q = result_of (proxy_trace p self ctx q retry_fuel).1
