-- ===== src/Check/Threads/Sound.antt =====
-- What the caller returns, in any interleaving, is the join of the children in some order of arrival.
use access_controller.Prelude.{
  ◌≡◌, refl, sym, subst, ap, ◌∙◌, inl, inr, Bool, true, false, not, Option, none, some, List, [],
  ◌∷◌, map, In, In-map, All,
}
use access_controller.Status.{context_done}
use access_controller.Check.Types.{Outcome, ok, err}
use access_controller.Check.Join.{Arrival, finished, done, select_first, join}
use access_controller.Check.Join.Results.{finished_inj, In-finished, indecisive_eq}
use access_controller.Check.Threads.{
  speaks, Worker, evaluating, sending, over, Waiter, waiting, ready, ended, Caller, selecting,
  returned, System, start, IsOver, goes_to_send, ends_silently, sends, OneWorks, here, there, Step,
  works, receives, wakes, defaults, cancels, Reach, stays, later,
}

-- The arrivals are the ends of the children, in some order, and perhaps the end of the context.
pub record IsArranged (may_end : Bool) (results : List (Option Outcome)) (arrivals : List Arrival)
    : Type 0 where
  pub only : (o : Option Outcome) → In (finished o) arrivals → In o results
  pub every : (o : Option Outcome) → In o results → In (finished o) arrivals
  pub ends : In done arrivals → may_end ≡ true

-- The outcome is one that `join` gives for some order of arrival.
abbrev pub IsJoined : Bool → Bool → List (Option Outcome) → Outcome → Type 0
IsJoined decisive may_end results r =
    (arrivals : List Arrival) × IsArranged may_end results arrivals
    × (join decisive arrivals ≡ some r)

-- Where a worker stands, by what its child ends with; `over` before the caller has returned.
abbrev Follows : Bool → Option Outcome → Worker → Type 0
Follows decisive o (evaluating p) = p ≡ o
Follows decisive o (sending r) = (o ≡ some r) × (speaks decisive r ≡ true)
Follows decisive o over = (r : Outcome) × (o ≡ some r) × (speaks decisive r ≡ false)

abbrev AllFollow : Bool → List (Option Outcome) → List Worker → Type 0
AllFollow decisive [] [] = Unit
AllFollow decisive (o ∷ os) (w ∷ ws) = Follows decisive o w × AllFollow decisive os ws
AllFollow decisive _ _ = ⊥

abbrev Waits : List Worker → Waiter → Type 0
Waits ws waiting = Unit
Waits ws ready = All IsOver ws
Waits ws ended = ⊥

-- The invariant of the reachable states.
abbrev IsSound : Bool → Bool → List (Option Outcome) → List Worker → Waiter → Caller → Type 0
IsSound decisive may_end os ws waiter selecting = AllFollow decisive os ws × Waits ws waiter
IsSound decisive may_end os ws waiter (returned r) = IsJoined decisive may_end os r

done_absent : (o : Option Outcome) → finished o ≡ done → ⊥
done_absent o e = cc

no_done : (os : List (Option Outcome)) → ¬ In done (map finished os)
no_done [] h = h
no_done (o ∷ os) (inl e) = done_absent o (sym e)
no_done (o ∷ os) (inr h) = no_done os h

never_done :
    (r : Outcome) (os : List (Option Outcome)) → ¬ In done (finished (some r) ∷ map finished os)
never_done r os h = no_done (some r ∷ os) h

-- First the end of the context, then the children.
canceled-IsJoined :
    (decisive may_end : Bool) (os : List (Option Outcome))
    → may_end ≡ true
    → IsJoined decisive may_end os (err context_done)
unfolding join select_first
canceled-IsJoined decisive may_end os yes_ends = (
  done ∷ map finished os,
  record {
    only = λ o h. elim h [ inl e ↦ absurd (done_absent o e) | inr k ↦ In-finished o os k ];
    every = λ o h. inr (In-map finished o os h);
    ends = λ h. yes_ends;
  },
  refl,
)

speaker_first :
    (decisive : Bool) (r : Outcome) (rest : List Arrival)
    → speaks decisive r ≡ true
    → select_first decisive false (finished (some r) ∷ rest) ≡ some r
unfolding select_first
speaker_first decisive (err e) rest h = refl
speaker_first decisive (ok b) rest h = rw h refl

-- First the child that sends, then the others.
sent-IsJoined :
    (decisive may_end : Bool) (os : List (Option Outcome)) (r : Outcome)
    → In (some r) os
    → speaks decisive r ≡ true
    → IsJoined decisive may_end os r
unfolding join select_first
sent-IsJoined decisive may_end os r h e = (
  finished (some r) ∷ map finished os,
  record {
    only = λ o k. elim k [
      | inl p ↦ subst (λ x. In x os) (sym (finished_inj o (some r) p)) h
      | inr m ↦ In-finished o os m
    ];
    every = λ o k. inr (In-map finished o os k);
    ends = λ m. absurd (never_done r os m);
  },
  speaker_first decisive r (map finished os) e,
)

start_follows :
    (decisive : Bool) (os : List (Option Outcome)) → AllFollow decisive os (map evaluating os)
start_follows decisive [] = tt
start_follows decisive (o ∷ os) = (refl, start_follows decisive os)

IsOver-stays :
    (decisive : Bool) {ws vs : List Worker} {m : Option Outcome}
    → OneWorks decisive ws m vs
    → ¬ All IsOver ws
IsOver-stays decisive (here (goes_to_send e)) h = cc
IsOver-stays decisive (here (ends_silently e)) h = cc
IsOver-stays decisive (here sends) h = cc
IsOver-stays decisive (there k) h = IsOver-stays decisive k h.1

works_follow :
    (decisive : Bool) (os : List (Option Outcome)) {ws vs : List Worker}
    → OneWorks decisive ws none vs
    → AllFollow decisive os ws
    → AllFollow decisive os vs
works_follow decisive [] (here k) h = absurd h
works_follow decisive [] (there k) h = absurd h
works_follow decisive (o ∷ os) (here (goes_to_send e)) h = ((sym h.0, e), h.1)
works_follow decisive (o ∷ os) (here (ends_silently {o = r} e)) h = ((r, sym h.0, e), h.1)
works_follow decisive (o ∷ os) (there k) h = (h.0, works_follow decisive os k h.1)

sender_spoke :
    (decisive : Bool) (os : List (Option Outcome)) {ws vs : List Worker} {r : Outcome}
    → OneWorks decisive ws (some r) vs
    → AllFollow decisive os ws
    → In (some r) os × (speaks decisive r ≡ true)
sender_spoke decisive [] (here k) h = absurd h
sender_spoke decisive [] (there k) h = absurd h
sender_spoke decisive (o ∷ os) (here sends) h = (inl (sym h.0.0), h.0.1)
sender_spoke decisive (o ∷ os) (there k) h =
    let (m, e) = sender_spoke decisive os k h.1 in (inr m, e)

-- A child that is over before the caller has returned ended with the Boolean that is not decisive.
silent_outcome : (decisive : Bool) (r : Outcome) → speaks decisive r ≡ false → r ≡ ok (not decisive)
silent_outcome decisive (err e) h = cc
silent_outcome decisive (ok b) h = ap ok (indecisive_eq decisive b h)

pub silent_select :
    (decisive : Bool) (rest : List Arrival)
    → select_first decisive false (finished (some (ok (not decisive))) ∷ rest)
      ≡ select_first decisive false rest
unfolding select_first
silent_select true rest = refl
silent_select false rest = refl

default_select :
    (decisive : Bool) (os : List (Option Outcome)) (ws : List Worker)
    → AllFollow decisive os ws
    → All IsOver ws
    → select_first decisive false (map finished os) ≡ some (ok (not decisive))
unfolding select_first
default_select decisive [] [] h k = refl
default_select decisive (o ∷ os) (over ∷ ws) ((r, e, silent), h) k =
    ap (λ x. select_first decisive false (finished x ∷ map finished os))
      (e ∙ ap some (silent_outcome decisive r silent))
    ∙ silent_select decisive (map finished os)
    ∙ default_select decisive os ws h k.1
default_select decisive (o ∷ os) (evaluating p ∷ ws) h k = cc
default_select decisive (o ∷ os) (sending p ∷ ws) h k = cc
default_select decisive [] (w ∷ ws) h k = absurd h
default_select decisive (o ∷ os) [] h k = absurd h

default-IsJoined :
    (decisive may_end : Bool) (os : List (Option Outcome)) (ws : List Worker)
    → AllFollow decisive os ws
    → All IsOver ws
    → IsJoined decisive may_end os (ok (not decisive))
unfolding join
default-IsJoined decisive may_end os ws h k = (
  map finished os,
  record {
    only = λ o. In-finished o os;
    every = λ o. In-map finished o os;
    ends = λ m. absurd (no_done os m);
  },
  default_select decisive os ws h k,
)

Step-IsSound :
    (decisive may_end : Bool) (os : List (Option Outcome)) {s t : System}
    → Step decisive may_end s t
    → IsSound decisive may_end os s.workers s.waiter s.caller
    → IsSound decisive may_end os t.workers t.waiter t.caller
Step-IsSound decisive may_end os (works {waiter = waiting} {caller = selecting} k) h =
    (works_follow decisive os k h.0, tt)
Step-IsSound decisive may_end os (works {waiter = ready} {caller = selecting} k) h =
    absurd (IsOver-stays decisive k h.1)
Step-IsSound decisive may_end os (works {waiter = ended} {caller = selecting} k) h = absurd h.1
Step-IsSound decisive may_end os (works {caller = returned r} k) h = h
Step-IsSound decisive may_end os (receives {o = r} k) h =
    let (m, e) = sender_spoke decisive os k h.0 in sent-IsJoined decisive may_end os r m e
Step-IsSound decisive may_end os (wakes {caller = selecting} all) h = (h.0, all)
Step-IsSound decisive may_end os (wakes {caller = returned r} all) h = h
Step-IsSound decisive may_end os (defaults {ws}) h = default-IsJoined decisive may_end os ws h.0 h.1
Step-IsSound decisive may_end os (cancels e) h = canceled-IsJoined decisive may_end os e

Reach-IsSound :
    (decisive may_end : Bool) (os : List (Option Outcome)) {t : System}
    → Reach decisive may_end (start os) t
    → IsSound decisive may_end os t.workers t.waiter t.caller
Reach-IsSound decisive may_end os stays = (start_follows decisive os, tt)
Reach-IsSound decisive may_end os (later r k) =
    Step-IsSound decisive may_end os k (Reach-IsSound decisive may_end os r)

-- In whatever interleaving, the outcome that the caller returns is what `join` gives for some order
-- of arrival of the children's results.
pub Reach-IsJoined :
    (decisive may_end : Bool) (os : List (Option Outcome)) (t : System) (r : Outcome)
    → Reach decisive may_end (start os) t
    → t.caller ≡ returned r
    → IsJoined decisive may_end os r
Reach-IsJoined decisive may_end os t r k e =
    subst (IsSound decisive may_end os t.workers t.waiter) e (Reach-IsSound decisive may_end os k)
