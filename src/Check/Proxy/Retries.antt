-- ===== src/Check/Proxy/Retries.antt =====
-- The retry loop of a proxied check: it ends, within a bound on the calls, and what it returns was
-- answered by a peer.
use access_controller.Prelude.{
  ℕ, zero, suc, ◌+◌, ◌≤◌, ◌<◌, ◌≡◌, refl, subst, ◌≢◌, Bool, true, false, [], arith, ltb,
  if◌then◌else◌, length, All,
}
use access_controller.Text.{Text, text_eq, text_eq_iff}
use access_controller.Status.{unknown}
use access_controller.Context.{Context}
use access_controller.Check.Types.{Query, ok, err}
use access_controller.Check.Proxy.{
  Reply, answered, refused, hangs, Peers, Proxied, returned, evaluate, waiting, Attempt, ended,
  unfinished, Trace, called, is_canceled, retry, proxy_trace, retry_fuel, result_of, proxy,
}

module _ (p : Peers) (self : Text) (ctx : Context) (q : Query) where
  -- A call of some node with this request hangs.
  abbrev pub SomeHangs : Type 0
  SomeHangs = (i : ℕ) × (node : Text) × (p.call i node ctx q ≡ hangs)

  -- The attempt has an end, or waits in a call that hangs.
  abbrev pub HasEnded : Attempt → Type 0
  HasEnded (ended waiting) = SomeHangs
  HasEnded (ended _) = Unit
  HasEnded unfinished = ⊥

  -- At most `left` more calls, none of them to this node, and then an end.
  pub record IsBounded (left : ℕ) (t : Trace) : Type 0 where
    pub ends : HasEnded t.1
    pub few : length t.0 ≤ left
    pub others : All (λ node. node ≢ self) t.0

  called-IsBounded :
      (left : ℕ) (node : Text) (t : Trace)
      → node ≢ self
      → IsBounded left t
      → IsBounded (suc left) (called node t)
  called-IsBounded left node t ne b = record {
    ends = b.ends;
    few = omega arith;
    others = (ne, b.others);
  }

  weaken-IsBounded : (left : ℕ) (t : Trace) → IsBounded left t → IsBounded (suc left) t
  weaken-IsBounded left t b = record { ends = b.ends; few = omega arith; others = b.others }

  stop-IsBounded : (left : ℕ) (r : Proxied) → HasEnded (ended r) → IsBounded left ([], ended r)
  stop-IsBounded left r h = record { ends = h; few = omega arith; others = tt }

  if-IsBounded :
      (b : Bool) {left : ℕ} {t u : Trace}
      → (b ≡ true → IsBounded left t)
      → (b ≡ false → IsBounded left u)
      → IsBounded left (if b then t else u)
  if-IsBounded true yes_case no_case = yes_case refl
  if-IsBounded false yes_case no_case = no_case refl

  -- The counter of the loop bounds the calls that are left.
  retry-IsBounded :
      (fuel retries left : ℕ) (reply : Reply)
      → (reply ≡ hangs → SomeHangs)
      → left + retries ≡ 6
      → 6 < fuel + retries
      → IsBounded left (retry p self ctx q fuel retries reply)
  unfolding retry
  retry-IsBounded zero retries left reply w e h = absurd (omega arith)
  retry-IsBounded (suc fuel) retries left (answered b) w e h = stop-IsBounded left (returned _) tt
  retry-IsBounded (suc fuel) retries left hangs w e h = stop-IsBounded left waiting (w refl)
  retry-IsBounded (suc fuel) retries zero (refused code) w e h =
      if-IsBounded (is_canceled code) (λ _. stop-IsBounded 0 evaluate tt)
        λ _.
          if-IsBounded (ltb 5 retries) (λ _. stop-IsBounded 0 evaluate tt)
            λ few. absurd (ground arith)
  retry-IsBounded (suc fuel) retries (suc left) (refused code) w e h =
      let owner = p.locate (suc retries) q.object in
      if-IsBounded (is_canceled code) (λ _. stop-IsBounded (suc left) evaluate tt)
        λ _.
          if-IsBounded (ltb 5 retries) (λ _. stop-IsBounded (suc left) evaluate tt)
            λ _.
              if-IsBounded (text_eq owner self) (λ _. stop-IsBounded (suc left) evaluate tt)
                λ other.
                  if-IsBounded (p.has_client (suc retries) owner)
                    (λ _.
                      called-IsBounded left owner _ (λ same. ground (arith, text_eq_iff owner self))
                        (retry-IsBounded fuel (suc retries) left _ (λ r. (suc retries, owner, r))
                          (omega arith) (omega arith)))
                    λ _. weaken-IsBounded left _ (
                      retry-IsBounded fuel (suc retries) left (refused unknown) (λ r. cc)
                        (omega arith) (omega arith))

  proxy_trace-IsBounded :
      (fuel : ℕ)
      → p.locate 0 q.object ≢ self
      → 6 < fuel
      → IsBounded 7 (proxy_trace p self ctx q fuel)
  unfolding proxy_trace
  proxy_trace-IsBounded fuel other h =
      if-IsBounded (p.has_client 0 (p.locate 0 q.object))
        (λ _. called-IsBounded 6 (p.locate 0 q.object) _ other (
          retry-IsBounded fuel 0 6 _ (λ r. (0, p.locate 0 q.object, r)) (omega arith)
            (omega arith)))
        λ _. stop-IsBounded 7 (returned _) tt

  -- Some node answered with this Boolean.
  abbrev pub WasAnswered : Bool → Type 0
  WasAnswered b = (i : ℕ) × (node : Text) × (p.call i node ctx q ≡ answered b)

  -- A Boolean that is the result was answered, and a call that is waited for hangs.
  abbrev IsAnswered : Trace → Type 0
  IsAnswered (nodes, ended (returned (ok b))) = WasAnswered b
  IsAnswered (nodes, ended waiting) = SomeHangs
  IsAnswered _ = Unit

  if-IsAnswered :
      (b : Bool) (t u : Trace) → IsAnswered t → IsAnswered u → IsAnswered (if b then t else u)
  if-IsAnswered true t u ht hu = ht
  if-IsAnswered false t u ht hu = hu

  called-IsAnswered : (node : Text) (t : Trace) → IsAnswered t → IsAnswered (called node t)
  called-IsAnswered node (nodes, ended (returned (ok b))) h = h
  called-IsAnswered node (nodes, ended waiting) h = h
  called-IsAnswered node _ h = tt

  retry-IsAnswered :
      (fuel retries : ℕ) (reply : Reply)
      → ((b : Bool) → reply ≡ answered b → WasAnswered b)
      → (reply ≡ hangs → SomeHangs)
      → IsAnswered (retry p self ctx q fuel retries reply)
  unfolding retry
  retry-IsAnswered zero retries reply h w = tt
  retry-IsAnswered (suc fuel) retries (answered b) h w = h b refl
  retry-IsAnswered (suc fuel) retries hangs h w = w refl
  retry-IsAnswered (suc fuel) retries (refused code) h w =
      let owner = p.locate (suc retries) q.object in
      let again = retry p self ctx q fuel (suc retries) (p.call (suc retries) owner ctx q) in
      if-IsAnswered (is_canceled code) _ _ tt (
        if-IsAnswered (ltb 5 retries) _ _ tt (
          if-IsAnswered (text_eq owner self) _ _ tt (
            if-IsAnswered (p.has_client (suc retries) owner) _ _
              (called-IsAnswered owner again (
                retry-IsAnswered fuel (suc retries) (p.call (suc retries) owner ctx q)
                  (λ b e. (suc retries, owner, e)) (λ e. (suc retries, owner, e))))
              (retry-IsAnswered fuel (suc retries) (refused unknown) (λ b e. cc) (λ e. cc)))))

  proxy_trace-IsAnswered : (fuel : ℕ) → IsAnswered (proxy_trace p self ctx q fuel)
  unfolding proxy_trace
  proxy_trace-IsAnswered fuel =
      let owner = p.locate 0 q.object in
      if-IsAnswered (p.has_client 0 owner) _ _
        (called-IsAnswered owner (retry p self ctx q fuel 0 (p.call 0 owner ctx q)) (
          retry-IsAnswered fuel 0 (p.call 0 owner ctx q) (λ b e. (0, owner, e))
            (λ e. (0, owner, e))))
        tt

  answered_result :
      (t : Trace) (b : Bool) → IsAnswered t → result_of t.1 ≡ returned (ok b) → WasAnswered b
  answered_result (nodes, unfinished) b h e = cc
  answered_result (nodes, ended evaluate) b h e = cc
  answered_result (nodes, ended waiting) b h e = cc
  answered_result (nodes, ended (returned (err f))) b h e = cc
  answered_result (nodes, ended (returned (ok c))) b h e = subst WasAnswered (ground arith) h

  waiting_result : (t : Trace) → IsAnswered t → result_of t.1 ≡ waiting → SomeHangs
  waiting_result (nodes, unfinished) h e = cc
  waiting_result (nodes, ended evaluate) h e = cc
  waiting_result (nodes, ended waiting) h e = h
  waiting_result (nodes, ended (returned o)) h e = cc

  -- The proxy waits for ever only in a call that hangs.
  pub proxy_waits : proxy p self ctx q ≡ waiting → SomeHangs
  unfolding proxy
  proxy_waits e =
      waiting_result (proxy_trace p self ctx q retry_fuel) (proxy_trace-IsAnswered retry_fuel) e

  -- A Boolean that the proxy returns is the answer of some node to this request.
  pub proxy_answered : (b : Bool) → proxy p self ctx q ≡ returned (ok b) → WasAnswered b
  unfolding proxy
  proxy_answered b e =
      answered_result (proxy_trace p self ctx q retry_fuel) b (proxy_trace-IsAnswered retry_fuel) e

-- If another node owns the object, the attempt to ask it ends within the fuel, unless one of its calls
-- hangs, with at most seven calls, none of them to this node.
pub retry_fuel-IsBounded :
    (p : Peers) (self : Text) (ctx : Context) (q : Query)
    → p.locate 0 q.object ≢ self
    → IsBounded p self ctx q 7 (proxy_trace p self ctx q retry_fuel)
retry_fuel-IsBounded p self ctx q other =
    proxy_trace-IsBounded p self ctx q retry_fuel other (omega arith)
