-- ===== src/Check/Threads/Leaks.antt =====
-- Goroutines that never end: the channels have no buffer and the caller reads one message.
use access_controller.Prelude.{
  ◌≡◌, refl, sym, subst, ◌∙◌, ◌≢◌, inl, inr, Bool, not, true, Option, none, some, List, [], ◌∷◌,
  map, In, All,
}
use access_controller.Check.Types.{Outcome, ok}
use access_controller.Check.Threads.{
  speaks, Worker, evaluating, sending, over, Waiter, waiting, ready, ended, Caller, returned,
  System, start, IsOver, Work, goes_to_send, ends_silently, sends, OneWorks, here, there, Step,
  works, receives, wakes, defaults, cancels, Reach, stays, later,
}

-- A worker that is at its send stays there unless its message is taken.
quiet_sender :
    (decisive : Bool) (q : Outcome) {ws vs : List Worker}
    → OneWorks decisive ws none vs
    → In (sending q) ws
    → In (sending q) vs
quiet_sender decisive q (here (goes_to_send e)) (inl h) = cc
quiet_sender decisive q (here (goes_to_send e)) (inr h) = inr h
quiet_sender decisive q (here (ends_silently e)) (inl h) = cc
quiet_sender decisive q (here (ends_silently e)) (inr h) = inr h
quiet_sender decisive q (there k) (inl h) = inl h
quiet_sender decisive q (there k) (inr h) = inr (quiet_sender decisive q k h)

not-IsOver : (q : Outcome) (ws : List Worker) → In (sending q) ws → ¬ All IsOver ws
not-IsOver q [] h all = h
not-IsOver q (w ∷ ws) (inl e) all = cc
not-IsOver q (w ∷ ws) (inr h) all = not-IsOver q ws h all.1

-- The caller has returned, a worker is at its send, and the other goroutine still waits.
pub record IsLeaked (r q : Outcome) (s : System) : Type 0 where
  pub gone : s.caller ≡ returned r
  pub blocked : In (sending q) s.workers
  pub waits : s.waiter ≡ waiting

Step-IsLeaked :
    (decisive may_end : Bool) (r q : Outcome) {s t : System}
    → Step decisive may_end s t
    → IsLeaked r q s
    → IsLeaked r q t
Step-IsLeaked decisive may_end r q (works k) h = record {
  gone = h.gone;
  blocked = quiet_sender decisive q k h.blocked;
  waits = h.waits;
}
Step-IsLeaked decisive may_end r q (receives k) h = let gone = h.gone in cc
Step-IsLeaked decisive may_end r q (wakes {ws} all) h = absurd (not-IsOver q ws h.blocked all)
Step-IsLeaked decisive may_end r q defaults h = let gone = h.gone in cc
Step-IsLeaked decisive may_end r q (cancels e) h = let gone = h.gone in cc

Reach-IsLeaked :
    (decisive may_end : Bool) (r q : Outcome) {s t : System}
    → Reach decisive may_end s t
    → IsLeaked r q s
    → IsLeaked r q t
Reach-IsLeaked decisive may_end r q stays h = h
Reach-IsLeaked decisive may_end r q (later k e) h =
    Step-IsLeaked decisive may_end r q e (Reach-IsLeaked decisive may_end r q k h)

-- One of the children goes to its send.
goes_there :
    (decisive : Bool) (q : Outcome) (os : List (Option Outcome))
    → In (some q) os
    → speaks decisive q ≡ true
    → (vs : List Worker) × OneWorks decisive (map evaluating os) none vs × In (sending q) vs
goes_there decisive q [] h e = absurd h
goes_there decisive q (o ∷ os) (inl h) e = (
  _,
  here (subst (λ x. Work decisive (evaluating x) none (sending q)) h (goes_to_send e)),
  inl refl,
)
goes_there decisive q (o ∷ os) (inr h) e =
    let (vs, k, m) = goes_there decisive q os h e in (_, there k, inr m)

-- If two children have something to send (an error, or the decisive Boolean), an interleaving leads
-- to a state in which checkRewrite has returned the first one's, and from which, in whatever
-- interleaving, the second one stays blocked at its send and the goroutine that waits for it stays
-- too: both are leaked.
pub second_sender-IsLeaked :
    (decisive may_end : Bool) (r q : Outcome) (os : List (Option Outcome))
    → speaks decisive r ≡ true
    → speaks decisive q ≡ true
    → In (some q) os
    → (s : System) × Reach decisive may_end (start (some r ∷ os)) s
      × ((t : System) → Reach decisive may_end s t → IsLeaked r q t)
second_sender-IsLeaked decisive may_end r q os e f h =
    let (vs, k, m) = goes_there decisive q os h f in
    (
      record { workers = over ∷ vs; waiter = waiting; caller = returned r },
      later (later (later stays (works (here (goes_to_send e)))) (works (there k)))
          (receives (here sends)),
      λ t reach.
          Reach-IsLeaked decisive may_end r q reach
            (record { gone = refl; blocked = inr m; waits = refl }),
    )

-- Whose message the caller has taken, once the goroutine that waits is at its end.
abbrev EndsByDefault : Bool → Waiter → Caller → Type 0
EndsByDefault decisive ended caller = caller ≡ returned (ok (not decisive))
EndsByDefault decisive _ caller = Unit

Step-EndsByDefault :
    (decisive may_end : Bool) {s t : System}
    → Step decisive may_end s t
    → EndsByDefault decisive s.waiter s.caller
    → EndsByDefault decisive t.waiter t.caller
Step-EndsByDefault decisive may_end (works k) h = h
Step-EndsByDefault decisive may_end (receives {waiter = waiting} k) h = tt
Step-EndsByDefault decisive may_end (receives {waiter = ready} k) h = tt
Step-EndsByDefault decisive may_end (receives {waiter = ended} k) h = cc
Step-EndsByDefault decisive may_end (wakes all) h = tt
Step-EndsByDefault decisive may_end defaults h = refl
Step-EndsByDefault decisive may_end (cancels {waiter = waiting} e) h = tt
Step-EndsByDefault decisive may_end (cancels {waiter = ready} e) h = tt
Step-EndsByDefault decisive may_end (cancels {waiter = ended} e) h = cc

Reach-EndsByDefault :
    (decisive may_end : Bool) (os : List (Option Outcome)) {t : System}
    → Reach decisive may_end (start os) t
    → EndsByDefault decisive t.waiter t.caller
Reach-EndsByDefault decisive may_end os stays = tt
Reach-EndsByDefault decisive may_end os (later k e) =
    Step-EndsByDefault decisive may_end e (Reach-EndsByDefault decisive may_end os k)

returned_inj : (r q : Outcome) → returned r ≡ returned q → r ≡ q
returned_inj r q e = cc

-- Unless checkRewrite returns the Boolean that is not decisive, the goroutine that waits for the
-- children never ends, in any interleaving: it is leaked by each union that a child grants, each
-- intersection that a child denies, each error of a child and each cancelled request.
pub waiter_never_ends :
    (decisive may_end : Bool) (os : List (Option Outcome)) (t : System) (r : Outcome)
    → Reach decisive may_end (start os) t
    → t.caller ≡ returned r
    → r ≢ ok (not decisive)
    → t.waiter ≢ ended
waiter_never_ends decisive may_end os t r k e n w =
    let by_default =
      subst (λ x. EndsByDefault decisive x t.caller) w
        (Reach-EndsByDefault decisive may_end os k) in
    n (returned_inj r (ok (not decisive)) (sym e ∙ by_default))
