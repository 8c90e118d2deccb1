-- ===== src/Examples/Threads.antt =====
-- A union of two children that both grant.
use access_controller.Prelude.{◌≡◌, ◌≤◌, ◌↔◌, ◌≢◌, refl, true, false, Option, some, List, [], ◌∷◌}
use access_controller.Check.Types.{Outcome, ok}
use access_controller.Check.Threads.{
  evaluating, over, waiting, ended, returned, System, start, goes_to_send, sends, here, Step, works,
  receives, Reach, stays, later,
}
use access_controller.Check.Threads.Sound.{IsJoined}
use access_controller.Check.Threads.Complete.{IsReturned, IsReturned-iff_IsJoined}
use access_controller.Check.Threads.Settles.{steps, run_settles}
use access_controller.Check.Threads.Leaks.{waiter_never_ends}

abbrev both_grant : List (Option Outcome)
both_grant = some (ok true) ∷ some (ok true) ∷ []

IsReturned-iff_IsJoined_example :
    IsReturned true false both_grant (ok true) ↔ IsJoined true false both_grant (ok true)
IsReturned-iff_IsJoined_example = IsReturned-iff_IsJoined true false both_grant (ok true)

-- The first child is received while the second one is evaluated.
abbrev granted_system : System
granted_system = record {
  workers = over ∷ evaluating (some (ok true)) ∷ [];
  waiter = waiting;
  caller = returned (ok true);
}

abbrev granted_run : Reach true false (start both_grant) granted_system
granted_run = later (later stays (works (here (goes_to_send refl)))) (receives (here sends))

run_settles_example :
    (steps granted_run ≤ 7)
    × (¬ ((u : System) × Step true false granted_system u)
        → (r : Outcome) × (granted_system.caller ≡ returned r))
run_settles_example =
    run_settles true false both_grant granted_system (λ e. cc, (λ e. cc, tt)) granted_run

waiter_never_ends_example : granted_system.waiter ≢ ended
waiter_never_ends_example =
    waiter_never_ends true false both_grant granted_system (ok true) granted_run refl (λ e. cc)
