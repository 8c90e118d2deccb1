-- ===== src/Check/Threads.antt =====
-- The goroutines of AccessController.checkRewrite (internal/access-controller.go), step by step:
-- one for each child of the rule, one that waits for them, and the `select` of the caller. The
-- channels errCh and checkOutcomeCh have no buffer, so that a send and the `select` are one step.
pub mod Sound
pub mod Complete
pub mod Settles
pub mod Leaks
use access_controller.Prelude.{
  ◌≡◌, Bool, true, false, not, Option, none, some, List, [], ◌∷◌, map, All,
}
use access_controller.Status.{context_done}
use access_controller.Check.Types.{Outcome, ok, err}
use access_controller.Check.Join.{is_decisive}

-- A child sends its error, or its Boolean if that is the decisive one; else it sends nothing.
abbrev pub speaks : Bool → Outcome → Bool
speaks decisive (err e) = true
speaks decisive (ok b) = is_decisive decisive b

-- The goroutine of a child: evaluating (`none`: for ever), at its send, or past `wg.Done()`.
pub data Worker : Type 0 where
  evaluating : Option Outcome → Worker
  sending : Outcome → Worker
  over : Worker

-- The goroutine that waits: at `wg.Wait()`, at its send, or at its end.
pub data Waiter : Type 0 where
  waiting ready ended : Waiter

-- The caller: at the `select`, or returned.
pub data Caller : Type 0 where
  selecting : Caller
  returned : Outcome → Caller

pub record System : Type 0 where
  pub workers : List Worker
  pub waiter : Waiter
  pub caller : Caller

abbrev pub start : List (Option Outcome) → System
start results = record { workers = map evaluating results; waiter = waiting; caller = selecting }

abbrev pub IsOver : Worker → Type 0
IsOver w = w ≡ over

-- What one worker does, with the message that it hands over.
pub data Work (decisive : Bool) : Worker → Option Outcome → Worker → Type 0 where
  goes_to_send :
      {o : Outcome}
      → speaks decisive o ≡ true
      → Work decisive (evaluating (some o)) none (sending o)
  ends_silently :
      {o : Outcome} → speaks decisive o ≡ false → Work decisive (evaluating (some o)) none over
  sends : {o : Outcome} → Work decisive (sending o) (some o) over

-- One of the workers does it.
pub data OneWorks (decisive : Bool) : List Worker → Option Outcome → List Worker → Type 0 where
  here :
      {w v : Worker} {m : Option Outcome} {ws : List Worker}
      → Work decisive w m v
      → OneWorks decisive (w ∷ ws) m (v ∷ ws)
  there :
      {w : Worker} {m : Option Outcome} {ws vs : List Worker}
      → OneWorks decisive ws m vs
      → OneWorks decisive (w ∷ ws) m (w ∷ vs)

-- `may_end`: whether the context may be done while the caller waits.
pub data Step (decisive may_end : Bool) : System → System → Type 0 where
  works :
      {ws vs : List Worker} {waiter : Waiter} {caller : Caller}
      → OneWorks decisive ws none vs
      → Step decisive may_end
          (record { workers = ws; waiter = waiter; caller = caller })
          (record { workers = vs; waiter = waiter; caller = caller })
  -- the `select` takes the message of a worker
  receives :
      {ws vs : List Worker} {waiter : Waiter} {o : Outcome}
      → OneWorks decisive ws (some o) vs
      → Step decisive may_end
          (record { workers = ws; waiter = waiter; caller = selecting })
          (record { workers = vs; waiter = waiter; caller = returned o })
  -- `wg.Wait()` returns
  wakes :
      {ws : List Worker} {caller : Caller}
      → All IsOver ws
      → Step decisive may_end
          (record { workers = ws; waiter = waiting; caller = caller })
          (record { workers = ws; waiter = ready; caller = caller })
  -- the `select` takes the message of the goroutine that waited
  defaults :
      {ws : List Worker}
      → Step decisive may_end
          (record { workers = ws; waiter = ready; caller = selecting })
          (record { workers = ws; waiter = ended; caller = returned (ok (not decisive)) })
  -- the `select` finds the context done
  cancels :
      {ws : List Worker} {waiter : Waiter}
      → may_end ≡ true
      → Step decisive may_end
          (record { workers = ws; waiter = waiter; caller = selecting })
          (record { workers = ws; waiter = waiter; caller = returned (err context_done) })

pub data Reach (decisive may_end : Bool) (s : System) : System → Type 0 where
  stays : Reach decisive may_end s s
  later :
      {t u : System}
      → Reach decisive may_end s t
      → Step decisive may_end t u
      → Reach decisive may_end s u
