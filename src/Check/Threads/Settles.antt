-- ===== src/Check/Threads/Settles.antt =====
-- The caller returns: every interleaving is short, and it goes on until the caller has returned.
use access_controller.Prelude.{
  ℕ, suc, ◌+◌, ◌*◌, ◌≤◌, ◌<◌, ◌≡◌, refl, ◌⊎◌, inl, inr, Bool, Option, none, some, List, [], ◌∷◌,
  map, length, arith, Bool-cases, All,
}
use access_controller.Check.Types.{Outcome}
use access_controller.Check.Threads.{
  speaks, Worker, evaluating, sending, over, Waiter, waiting, ready, ended, Caller, selecting,
  returned, System, start, IsOver, goes_to_send, ends_silently, sends, OneWorks, here, there, Step,
  works, receives, wakes, defaults, cancels, Reach, stays, later,
}

-- The steps that are left.
abbrev work_left : Worker → ℕ
work_left (evaluating o) = 2
work_left (sending o) = 1
work_left over = 0

abbrev all_work_left : List Worker → ℕ
all_work_left [] = 0
all_work_left (w ∷ ws) = work_left w + all_work_left ws

abbrev waiter_left : Waiter → ℕ
waiter_left waiting = 2
waiter_left ready = 1
waiter_left ended = 0

abbrev caller_left : Caller → ℕ
caller_left selecting = 1
caller_left (returned o) = 0

abbrev left : System → ℕ
left s = all_work_left s.workers + waiter_left s.waiter + caller_left s.caller

-- The number of steps of an interleaving.
abbrev pub steps : {decisive may_end : Bool} {s t : System} → Reach decisive may_end s t → ℕ
steps stays = 0
steps (later r k) = suc (steps r)

OneWorks-left :
    (decisive : Bool) {ws vs : List Worker} {m : Option Outcome}
    → OneWorks decisive ws m vs
    → all_work_left vs < all_work_left ws
OneWorks-left decisive (here (goes_to_send e)) = omega arith
OneWorks-left decisive (here (ends_silently e)) = omega arith
OneWorks-left decisive (here sends) = omega arith
OneWorks-left decisive (there {w} k) = omega (arith, OneWorks-left decisive k)

Step-left : (decisive may_end : Bool) {s t : System} → Step decisive may_end s t → left t < left s
Step-left decisive may_end (works k) = omega (arith, OneWorks-left decisive k)
Step-left decisive may_end (receives k) = omega (arith, OneWorks-left decisive k)
Step-left decisive may_end (wakes all) = omega arith
Step-left decisive may_end defaults = omega arith
Step-left decisive may_end (cancels e) = omega arith

steps-left :
    (decisive may_end : Bool) {s t : System} (r : Reach decisive may_end s t)
    → steps r + left t ≤ left s
steps-left decisive may_end stays = omega arith
steps-left decisive may_end (later r k) =
    omega (arith, steps-left decisive may_end r, Step-left decisive may_end k)

start_left : (os : List (Option Outcome)) → all_work_left (map evaluating os) ≡ 2 * length os
start_left [] = refl
start_left (o ∷ os) = omega (arith, start_left os)

steps_bounded :
    (decisive may_end : Bool) (os : List (Option Outcome)) {t : System}
    (r : Reach decisive may_end (start os) t)
    → steps r ≤ 2 * length os + 3
steps_bounded decisive may_end os r = omega (arith, steps-left decisive may_end r, start_left os)

-- No worker evaluates for ever.
abbrev Ends : Worker → Type 0
Ends (evaluating none) = ⊥
Ends _ = Unit

OneWorks-Ends :
    (decisive : Bool) {ws vs : List Worker} {m : Option Outcome}
    → OneWorks decisive ws m vs
    → All Ends ws
    → All Ends vs
OneWorks-Ends decisive (here (goes_to_send e)) h = (tt, h.1)
OneWorks-Ends decisive (here (ends_silently e)) h = (tt, h.1)
OneWorks-Ends decisive (here sends) h = (tt, h.1)
OneWorks-Ends decisive (there k) h = (h.0, OneWorks-Ends decisive k h.1)

Reach-Ends :
    (decisive may_end : Bool) {s t : System}
    → Reach decisive may_end s t
    → All Ends s.workers
    → All Ends t.workers
Reach-Ends decisive may_end stays h = h
Reach-Ends decisive may_end (later r (works k)) h =
    OneWorks-Ends decisive k (Reach-Ends decisive may_end r h)
Reach-Ends decisive may_end (later r (receives k)) h =
    OneWorks-Ends decisive k (Reach-Ends decisive may_end r h)
Reach-Ends decisive may_end (later r (wakes all)) h = Reach-Ends decisive may_end r h
Reach-Ends decisive may_end (later r defaults) h = Reach-Ends decisive may_end r h
Reach-Ends decisive may_end (later r (cancels e)) h = Reach-Ends decisive may_end r h

-- The goroutine that waits has not sent while the caller is at its `select`.
abbrev IsUnsent : Waiter → Caller → Type 0
IsUnsent ended selecting = ⊥
IsUnsent _ _ = Unit

Reach-IsUnsent :
    (decisive may_end : Bool) {s t : System}
    → Reach decisive may_end s t
    → IsUnsent s.waiter s.caller
    → IsUnsent t.waiter t.caller
Reach-IsUnsent decisive may_end stays h = h
Reach-IsUnsent decisive may_end (later r (works k)) h = Reach-IsUnsent decisive may_end r h
Reach-IsUnsent decisive may_end (later r (receives {waiter = waiting} k)) h = tt
Reach-IsUnsent decisive may_end (later r (receives {waiter = ready} k)) h = tt
Reach-IsUnsent decisive may_end (later r (receives {waiter = ended} k)) h = tt
Reach-IsUnsent decisive may_end (later r (wakes {caller = selecting} all)) h = tt
Reach-IsUnsent decisive may_end (later r (wakes {caller = returned o} all)) h = tt
Reach-IsUnsent decisive may_end (later r defaults) h = tt
Reach-IsUnsent decisive may_end (later r (cancels {waiter = waiting} e)) h = tt
Reach-IsUnsent decisive may_end (later r (cancels {waiter = ready} e)) h = tt
Reach-IsUnsent decisive may_end (later r (cancels {waiter = ended} e)) h = tt

-- Workers that end can work on, or are all over.
workers_go_on :
    (decisive : Bool) (ws : List Worker)
    → All Ends ws
    → All IsOver ws ⊎ ((vs : List Worker) × (m : Option Outcome) × OneWorks decisive ws m vs)
workers_go_on decisive [] h = inl tt
workers_go_on decisive (evaluating none ∷ ws) h = absurd h.0
workers_go_on decisive (evaluating (some o) ∷ ws) h = elim (Bool-cases (speaks decisive o)) [
  | inl e ↦ inr (_, _, here (goes_to_send e))
  | inr e ↦ inr (_, _, here (ends_silently e))
]
workers_go_on decisive (sending o ∷ ws) h = inr (_, _, here sends)
workers_go_on decisive (over ∷ ws) h = elim (workers_go_on decisive ws h.1) [
  | inl all ↦ inl (refl, all)
  | inr (vs, m, k) ↦ inr (_, _, there k)
]

-- At the `select` some step is possible, and it is not the end of the context.
abbrev GoesOn : Bool → Bool → System → Type 0
GoesOn decisive may_end s = (t : System) × Step decisive may_end s t

selecting-GoesOn :
    (decisive may_end : Bool) (ws : List Worker) (waiter : Waiter)
    → All Ends ws
    → IsUnsent waiter selecting
    → GoesOn decisive may_end (record { workers = ws; waiter = waiter; caller = selecting })
selecting-GoesOn decisive may_end ws ended h u = absurd u
selecting-GoesOn decisive may_end ws ready h u = (_, defaults)
selecting-GoesOn decisive may_end ws waiting h u = elim (workers_go_on decisive ws h) [
  | inl all ↦ (_, wakes all)
  | inr (vs, none, k) ↦ (_, works k)
  | inr (vs, some o, k) ↦ (_, receives k)
]

start_Ends :
    (os : List (Option Outcome)) → All (λ o. o ≡ none → ⊥) os → All Ends (map evaluating os)
start_Ends [] h = tt
start_Ends (none ∷ os) h = absurd (h.0 refl)
start_Ends (some o ∷ os) h = (tt, start_Ends os h.1)

caller_cases :
    (decisive may_end : Bool) (ws : List Worker) (waiter : Waiter) (caller : Caller)
    → All Ends ws
    → IsUnsent waiter caller
    → ¬ GoesOn decisive may_end (record { workers = ws; waiter = waiter; caller = caller })
    → (r : Outcome) × (caller ≡ returned r)
caller_cases decisive may_end ws waiter (returned r) h u n = (r, refl)
caller_cases decisive may_end ws waiter selecting h u n =
    absurd (n (selecting-GoesOn decisive may_end ws waiter h u))

stuck_returned :
    (decisive may_end : Bool) (os : List (Option Outcome)) (t : System)
    → All (λ o. o ≡ none → ⊥) os
    → Reach decisive may_end (start os) t
    → ¬ GoesOn decisive may_end t
    → (r : Outcome) × (t.caller ≡ returned r)
stuck_returned decisive may_end os t h k n =
    caller_cases decisive may_end t.workers t.waiter t.caller
      (Reach-Ends decisive may_end k (start_Ends os h)) (Reach-IsUnsent decisive may_end k tt) n

-- If the evaluation of each of the n children ends, every interleaving of checkRewrite has at most
-- 2n + 3 steps, and one that cannot go on has returned to the caller, even if the context is never
-- done.
pub run_settles :
    (decisive may_end : Bool) (os : List (Option Outcome)) (t : System)
    → All (λ o. o ≡ none → ⊥) os
    → (k : Reach decisive may_end (start os) t)
    → (steps k ≤ 2 * length os + 3)
      × (¬ ((u : System) × Step decisive may_end t u) → (r : Outcome) × (t.caller ≡ returned r))
run_settles decisive may_end os t h k =
    (steps_bounded decisive may_end os k, stuck_returned decisive may_end os t h k)
