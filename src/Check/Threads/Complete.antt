-- ===== src/Check/Threads/Complete.antt =====
-- Each outcome that `join` gives for some order of arrival is returned in some interleaving.
use access_controller.Prelude.{
  ◌≡◌, refl, sym, subst, ap, ◌∙◌, ◌⊎◌, ◌↔◌, inl, inr, Bool, true, false, not, Option, none, some,
  List, [], ◌∷◌, map, arith, Bool-cases, In, All,
}
use access_controller.Status.{context_done}
use access_controller.Check.Types.{Outcome, ok, err}
use access_controller.Check.Join.{Arrival, finished, done, is_decisive, select_first, join}
use access_controller.Check.Join.Results.{finished_inj, indecisive_eq}
use access_controller.Check.Threads.{
  speaks, Worker, evaluating, sending, over, Waiter, waiting, Caller, selecting, returned, System,
  start, IsOver, Work, goes_to_send, ends_silently, sends, OneWorks, here, there, works, receives,
  wakes, defaults, cancels, Reach, stays, later,
}
use access_controller.Check.Threads.Sound.{IsArranged, IsJoined, Reach-IsJoined}

-- Where an outcome of `select_first` comes from.
abbrev IsFrom : Bool → Bool → List Arrival → Outcome → Type 0
IsFrom decisive running arrivals r =
    ((r ≡ err context_done) × In done arrivals)
    ⊎ ((In (finished (some r)) arrivals × (speaks decisive r ≡ true))
        ⊎ ((r ≡ ok (not decisive))
            × (running ≡ false)
            × ((o : Option Outcome) → In (finished o) arrivals → o ≡ some (ok (not decisive)))))

IsFrom-behind :
    (decisive running : Bool) (o : Option Outcome) (rest : List Arrival) (r : Outcome)
    → o ≡ some (ok (not decisive))
    → IsFrom decisive running rest r
    → IsFrom decisive running (finished o ∷ rest) r
IsFrom-behind decisive running o rest r e (inl (c, m)) = inl (c, inr m)
IsFrom-behind decisive running o rest r e (inr (inl (m, s))) = inr (inl (inr m, s))
IsFrom-behind decisive running o rest r e (inr (inr (d, n, all))) =
    inr (inr (d, n, λ p m. elim m [ inl k ↦ finished_inj p o k ∙ e | inr k ↦ all p k ]))

IsFrom-running :
    (decisive running : Bool) (a : Arrival) (rest : List Arrival) (r : Outcome)
    → IsFrom decisive true rest r
    → IsFrom decisive running (a ∷ rest) r
IsFrom-running decisive running a rest r (inl (c, m)) = inl (c, inr m)
IsFrom-running decisive running a rest r (inr (inl (m, s))) = inr (inl (inr m, s))
IsFrom-running decisive running a rest r (inr (inr (d, n, all))) = cc

sent-IsFrom :
    (decisive running : Bool) (s : Outcome) (rest : List Arrival) (r : Outcome)
    → some s ≡ some r
    → speaks decisive s ≡ true
    → IsFrom decisive running (finished (some s) ∷ rest) r
sent-IsFrom decisive running s rest r e k =
    let same : s ≡ r = cc in
    inr (inl (inl (ap finished (sym e)), subst (λ x. speaks decisive x ≡ true) same k))

select_first-IsFrom :
    (decisive running : Bool) (arrivals : List Arrival) (r : Outcome)
    → select_first decisive running arrivals ≡ some r
    → IsFrom decisive running arrivals r
unfolding select_first
select_first-IsFrom decisive true [] r h = cc
select_first-IsFrom decisive false [] r h = inr (inr (ground arith, refl, λ o m. absurd m))
select_first-IsFrom decisive running (done ∷ rest) r h = inl (ground arith, inl refl)
select_first-IsFrom decisive running (finished none ∷ rest) r h =
    IsFrom-running decisive running (finished none) rest r
      (select_first-IsFrom decisive true rest r h)
select_first-IsFrom decisive running (finished (some (err e)) ∷ rest) r h =
    sent-IsFrom decisive running (err e) rest r h refl
select_first-IsFrom decisive running (finished (some (ok c)) ∷ rest) r h =
    elim (Bool-cases (is_decisive decisive c)) [
      | inl d ↦ sent-IsFrom decisive running (ok c) rest r (rw d at h) d
      | inr d ↦
          IsFrom-behind decisive running (some (ok c)) rest r
            (ap (λ (x : Bool). some (ok x)) (indecisive_eq decisive c d))
            (select_first-IsFrom decisive running rest r (rw d at h))
    ]

-- Workers that move on without a message.
data Quiet (decisive : Bool) (ws : List Worker) : List Worker → Type 0 where
  quiet : Quiet decisive ws ws
  then_works :
      {vs us : List Worker}
      → Quiet decisive ws vs
      → OneWorks decisive vs none us
      → Quiet decisive ws us

Quiet-cons :
    (decisive : Bool) (w : Worker) {ws vs : List Worker}
    → Quiet decisive ws vs
    → Quiet decisive (w ∷ ws) (w ∷ vs)
Quiet-cons decisive w quiet = quiet
Quiet-cons decisive w (then_works q k) = then_works (Quiet-cons decisive w q) (there k)

Quiet-Reach :
    (decisive may_end : Bool) (s : System) {ws vs : List Worker} (waiter : Waiter) (caller : Caller)
    → Quiet decisive ws vs
    → Reach decisive may_end s (record { workers = ws; waiter = waiter; caller = caller })
    → Reach decisive may_end s (record { workers = vs; waiter = waiter; caller = caller })
Quiet-Reach decisive may_end s waiter caller quiet r = r
Quiet-Reach decisive may_end s waiter caller (then_works q k) r =
    later (Quiet-Reach decisive may_end s waiter caller q r) (works k)

silent_default : (decisive : Bool) → speaks decisive (ok (not decisive)) ≡ false
silent_default true = refl
silent_default false = refl

-- All children end silently, from the last on.
silent-Quiet :
    (decisive : Bool) (os : List (Option Outcome))
    → ((o : Option Outcome) → In o os → o ≡ some (ok (not decisive)))
    → Quiet decisive (map evaluating os) (map (λ o. over) os)
silent-Quiet decisive [] h = quiet
silent-Quiet decisive (o ∷ os) h =
    then_works (Quiet-cons decisive (evaluating o) (silent-Quiet decisive os (λ p m. h p (inr m))))
      (here (
        subst (λ x. Work decisive (evaluating x) none over) (sym (h o (inl refl)))
          (ends_silently (silent_default decisive))))

All-over : (os : List (Option Outcome)) → All IsOver (map (λ o. over) os)
All-over [] = tt
All-over (o ∷ os) = (refl, All-over os)

-- One child goes to its send and sends.
speaker_path :
    (decisive : Bool) (os : List (Option Outcome)) (r : Outcome)
    → In (some r) os
    → speaks decisive r ≡ true
    → (vs : List Worker) × (us : List Worker) × OneWorks decisive (map evaluating os) none vs
      × OneWorks decisive vs (some r) us
speaker_path decisive [] r m k = absurd m
speaker_path decisive (o ∷ os) r (inl e) k = (
  _,
  _,
  here (subst (λ x. Work decisive (evaluating x) none (sending r)) e (goes_to_send k)),
  here sends,
)
speaker_path decisive (o ∷ os) r (inr m) k =
    let (vs, us, a, b) = speaker_path decisive os r m k in (_, _, there a, there b)

-- The caller returns the outcome in some interleaving.
abbrev pub IsReturned : Bool → Bool → List (Option Outcome) → Outcome → Type 0
IsReturned decisive may_end os r =
    (t : System) × Reach decisive may_end (start os) t × (t.caller ≡ returned r)

IsFrom-IsReturned :
    (decisive may_end : Bool) (os : List (Option Outcome)) (arrivals : List Arrival) (r : Outcome)
    → IsArranged may_end os arrivals
    → IsFrom decisive false arrivals r
    → IsReturned decisive may_end os r
IsFrom-IsReturned decisive may_end os arrivals r a (inl (c, m)) =
    (_, later stays (cancels (a.ends m)), ap returned (sym c))
IsFrom-IsReturned decisive may_end os arrivals r a (inr (inl (m, s))) =
    let (vs, us, p, q) = speaker_path decisive os r (a.only (some r) m) s in
    (_, later (later stays (works p)) (receives q), refl)
IsFrom-IsReturned decisive may_end os arrivals r a (inr (inr (d, n, all))) =
    let q = silent-Quiet decisive os (λ o m. all o (a.every o m)) in
    (
      _,
      later
          (later (Quiet-Reach decisive may_end (start os) waiting selecting q stays)
            (wakes (All-over os)))
          defaults,
      ap returned (sym d),
    )

-- The goroutines, the channels and the `select` of checkRewrite return exactly the outcomes that
-- `join` gives for the orders in which the children's results, and the end of the context, may
-- arrive.
pub IsReturned-iff_IsJoined :
    (decisive may_end : Bool) (os : List (Option Outcome)) (r : Outcome)
    → IsReturned decisive may_end os r ↔ IsJoined decisive may_end os r
unfolding join
IsReturned-iff_IsJoined decisive may_end os r = (
  λ (t, k, e). Reach-IsJoined decisive may_end os t r k e,
  λ (arrivals, a, e).
      IsFrom-IsReturned decisive may_end os arrivals r a
        (select_first-IsFrom decisive false arrivals r e),
)
