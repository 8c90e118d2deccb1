-- ===== src/Check/Join.antt =====
-- The end of checkRewrite: one goroutine for each child, one that waits for all of them, and the
-- `select` that takes the first message. A child whose result is `decisive` (true for a union, false
-- for an intersection) or an error sends it; the others send nothing. When all children are done and
-- none has sent, the waiting goroutine sends the other Boolean.
pub mod Results
use access_controller.Prelude.{
  ◌≡◌, refl, Bool, true, false, not, Option, none, some, List, [], ◌∷◌, if◌then◌else◌, In, inl, inr,
}
use access_controller.Status.{Failure, context_done}
use access_controller.Config.{Rewrite}
use access_controller.Check.Types.{Query, Outcome, ok, err}

-- Events at the `select`, in the order in which they happen: a child ends (`none`: it never does),
-- or the context is done.
pub data Arrival : Type 0 where
  finished : Option Outcome → Arrival
  done : Arrival

-- The Boolean that a child sends is the decisive one.
abbrev pub is_decisive : Bool → Bool → Bool
is_decisive true b = b
is_decisive false b = not b

-- `running`: some child never ends, so the waiting goroutine sends nothing
unfoldable pub select_first : Bool → Bool → List Arrival → Option Outcome
select_first decisive running [] = if running then none else some (ok (not decisive))
select_first decisive running (done ∷ rest) = some (err context_done)
select_first decisive running (finished none ∷ rest) = select_first decisive true rest
select_first decisive running (finished (some (err e)) ∷ rest) = some (err e)
select_first decisive running (finished (some (ok b)) ∷ rest) =
    let others = select_first decisive running rest in
    if is_decisive decisive b then some (ok b) else others

unfoldable pub join : Bool → List Arrival → Option Outcome
unfolding select_first
join decisive arrivals = select_first decisive false arrivals

-- The order in which children end is not the program's to choose: a scheduler puts the children of
-- a rule in any order, and may let the context end at any point.
pub record Scheduler : Type 0 where
  pub arrange : Query → Rewrite → List (Option Outcome) → List Arrival
  pub only :
      (q : Query) (r : Rewrite) (os : List (Option Outcome)) (o : Option Outcome)
      → In (finished o) (arrange q r os)
      → In o os
  pub every :
      (q : Query) (r : Rewrite) (os : List (Option Outcome)) (o : Option Outcome)
      → In o os
      → In (finished o) (arrange q r os)
