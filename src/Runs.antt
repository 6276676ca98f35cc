-- ===== src/Runs.antt =====
-- Runs of the simulator, the learners and the controller on whole numbers, and each of their theorems
-- at an input that meets its hypotheses.
use Prim.Native.String.{String}
use kvflow.Simulator.Oracle.{IsPerfect, run_static-IsPerfect}
use kvflow.Simulator.Accounts.{Honest, lessons, run_adaptive-IsHonest}
use kvflow.Simulator.Probing.{TransferNear, run_adaptive_probes}
use kvflow.Learner.LastSample.{LastSample, last_sample, observe_last_sample}
use kvflow.Int.{ℤ, pos, ◌≤ℤ◌, ◌+ℤ◌}
use kvflow.Scheduler.{Candidate, wait, Action, transfer, other}
use kvflow.Simulator.Regret.{IsPlain, IsKnown, regret_lem}
use kvflow.Simulator.Policy.{
  static_outcome, AdaptiveState, run_adaptive, run_static, adaptive_outcome, learn, adaptive_next,
  adaptive_loop,
}
use kvflow.Simulator.{Outcome, Scenario, best_actual, actual_ttft}
use kvflow.Prelude.{refl, [], ◌∷◌, ℕ, List, ◌≡◌, ok, arith, length, All, err, unknown_action}
use kvflow.Whole.{whole, whole-IsIeee}
use kvflow.Simulator
use kvflow.Examples.{program, busy_source, busy_IsValid, busy_IsWithin}

simulation : Unit {0}
unfolding program Simulator.ttft_of Simulator.estimate Simulator.decide Simulator.actual_costs
    Simulator.actual_ttft Simulator.best_actual Simulator.regret Simulator.transfer_duration
    Simulator.record_outcome static_outcome run_static adaptive_outcome learn adaptive_next
    adaptive_loop run_adaptive observe_last_sample
simulation = tt

busy_IsPlain : IsPlain busy_source
busy_IsPlain = record { valid = busy_IsValid; within = busy_IsWithin }

regret_lem_example :
    (best : Candidate) × (best_actual busy_source ≡ ok best)
    × (actual_ttft busy_source best.action ≡ ok best.estimated_ttft)
    × (Simulator.regret busy_source best.action ≡ ok (pos 0))
    × ((x : Action)
        → IsKnown x
        → (r : ℤ) × (Simulator.regret busy_source x ≡ ok r)
          × (pos 0 ≤ℤ r)
          × (actual_ttft busy_source x ≡ ok (best.estimated_ttft +ℤ r)))
    × ((s : String) → Simulator.regret busy_source (other s) ≡ err unknown_action)
regret_lem_example = regret_lem whole-IsIeee busy_source busy_IsPlain

wait_regret : Simulator.regret busy_source wait ≡ ok (pos 3_000_000_000)
unfolding simulation
wait_regret = refl

abbrev outcome : ℕ → Action → Action → ℕ → ℕ → Outcome
outcome r believed executed predicted actual = record {
  regret = pos r;
  believed = believed;
  executed = executed;
  predicted = pos predicted;
  actual = pos actual;
}

abbrev truths : List (Scenario ℤ)
truths = busy_source ∷ busy_source ∷ busy_source ∷ []

abbrev exact_report : Unit {0} → ℤ → ℤ × Unit {0}
exact_report n seconds = (seconds, n)

-- A first belief of one byte a second: the policy waits twice, and is then made to transfer.
abbrev slow_belief : LastSample ℤ
slow_belief = record { seconds_per_byte = pos 1 }

abbrev outcomes : List Outcome
outcomes =
    outcome 3_000_000_000 wait wait 7_000_000_000 7_000_000_000
    ∷ outcome 3_000_000_000 wait wait 7_000_000_000 7_000_000_000
    ∷ outcome 0 wait transfer 40_002_000_000_000 4_000_000_000
    ∷ []

abbrev taught_state : AdaptiveState (LastSample ℤ) (Unit {0})
taught_state = record {
  learner = record { seconds_per_byte = pos 0 };
  noise = tt;
  since_transfer = 0;
}

probed_run :
    run_adaptive last_sample exact_report slow_belief tt (pos 2) truths
    ≡ (ok outcomes, taught_state)
unfolding simulation
probed_run = refl

run_adaptive_probes_example : TransferNear 2 0 outcomes
run_adaptive_probes_example =
    run_adaptive_probes last_sample exact_report 2 slow_belief tt truths (omega arith) probed_run 0
      (omega arith)

run_adaptive-IsHonest_example :
    (pos 0 ≤ℤ pos 2)
    × Honest last_sample exact_report (pos 2) 0 (slow_belief, tt) truths outcomes
    × ((taught_state.learner, tt)
        ≡ lessons last_sample exact_report truths outcomes (slow_belief, tt))
run_adaptive-IsHonest_example =
    run_adaptive-IsHonest last_sample exact_report slow_belief tt (pos 2) truths probed_run

abbrev known : Outcome
known = outcome 0 transfer transfer 4_000_000_000 4_000_000_000

static_run : run_static (pos 20_000) (busy_source ∷ []) ≡ ok (known ∷ [])
unfolding simulation
static_run = refl

run_static-IsPerfect_example :
    (os : List Outcome) × (run_static (pos 20_000) (busy_source ∷ []) ≡ ok os)
    × (length os ≡ 1)
    × All IsPerfect os
run_static-IsPerfect_example =
    run_static-IsPerfect whole-IsIeee (pos 20_000) (busy_source ∷ []) (busy_IsPlain, tt)
