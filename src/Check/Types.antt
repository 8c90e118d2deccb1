-- ===== src/Check/Types.antt =====
-- The arguments and the results of a check.
use access_controller.Prelude.{Bool}
use access_controller.Text.{Text}
use access_controller.Status.{Failure}

-- the arguments of `check`; the subject is its printed form
pub record Query : Type 0 where
  pub namespace : Text
  pub object : Text
  pub relation : Text
  pub user : Text

-- (bool, error)
pub data Outcome : Type 0 where
  ok : Bool → Outcome
  err : Failure → Outcome
