-- ===== src/Scheduler/Actions.antt =====
-- The equality test of actions decides equality with the constants.
use kvflow.Prelude.{◌≡◌, ◌≢◌, true, false, arith}
use kvflow.Scheduler.{Action, transfer, action_eq}

pub action_eq-transfer : (a : Action) → action_eq a transfer ≡ true → a ≡ transfer
unfolding action_eq
action_eq-transfer a h = ground arith

pub action_ne-transfer : (a : Action) → action_eq a transfer ≡ false → a ≢ transfer
unfolding action_eq
action_ne-transfer a h e = ground arith
