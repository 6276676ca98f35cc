-- ===== src/KvBench.antt =====
-- cmd/kvbench/main.go: the means over the seeds of a policy's runs. A run of the policy is a parameter.
pub mod Means
pub mod Setup
pub mod Tables
pub mod Printed
pub mod Perfect
use kvflow.Simulator.Adaptation.{Adaptation, adaptation_times}
use kvflow.Float64.{Float64, ◌⊘◌}
use kvflow.Simulator.{Outcome, Scenario}
use kvflow.Scheduler.{Action, action_eq, transfer}
use kvflow.Int.{ℤ, add64, pos, sub64}
use mathlib.Core.Option.{map as option_map}
use kvflow.Prelude.{
  [], ◌∷◌, zero, suc, none, some, true, false, ◌>>=◌, ℕ, Option, List, if◌then◌else◌, ◌+◌, Result,
  ok, ◌==◌, ◌*◌, length, not,
}

-- The constant `seeds`.
abbrev pub seeds : ℕ
seeds = 20

-- The loop over a run's outcomes in `meanRegretMs`.
abbrev pub add_regrets : ℤ → List Outcome → ℤ
add_regrets total [] = total
add_regrets total (o ∷ os) = add_regrets (add64 total o.regret) os

-- A sum and the number of its terms so far.
pub record Tally : Type 0 where
  pub total : ℤ
  pub count : ℕ

-- One more term.
abbrev pub plus : Tally → ℤ → Tally
plus t x = record { total = add64 t.total x; count = t.count + 1 }

-- The loop over the change points of a run in `meanAdaptation`; `none` where the policy did not adapt.
unfoldable pub add_adaptations : Action → Tally → List Adaptation → Option Tally
add_adaptations to t [] = some t
add_adaptations to t (a ∷ more) =
    let rest = add_adaptations to (if action_eq a.to to then plus t (pos a.requests) else t) more in
    if not (action_eq a.to to) then rest else if not a.adapted then none else rest

-- The loop over the outcomes of a run in `meanTransferErrorMs`.
unfoldable pub add_errors : Tally → List Outcome → Tally
add_errors t [] = t
add_errors t (o ∷ os) =
    add_errors (if action_eq o.executed transfer then plus t (sub64 o.actual o.predicted) else t) os

abbrev pub start : Tally
start = record { total = pos 0; count = 0 }

module _ {F : Type 0} ⦃fl : Float64 F⦄ where
  -- `float64(time.Millisecond)`
  abbrev pub millisecond : F
  millisecond = fl.of_int (pos 1_000_000)

module _ {F : Type 0} ⦃fl : Float64 F⦄ (run : List (Scenario F) → ℕ → Result (List Outcome)) where
  -- The loop over the seeds, with so many left.
  unfoldable pub regret_loop : ℕ → ℕ → List (Scenario F) → ℤ → Result ℤ
  regret_loop zero seed truths total = ok total
  regret_loop (suc n) seed truths total = do
    outcomes ← run truths seed
    regret_loop n (seed + 1) truths (add_regrets total outcomes)

  unfoldable pub mean_regret_ms : List (Scenario F) → Result F
  mean_regret_ms truths = do
    total ← regret_loop seeds 0 truths (pos 0)
    ok (fl.of_int total ⊘ millisecond ⊘ fl.of_int (pos (seeds * length truths)))

  abbrev pub go_on : Option Tally → (Tally → Result (Option Tally)) → Result (Option Tally)
  go_on none rest = ok none
  go_on (some t) rest = rest t

  unfoldable pub adaptation_loop :
      ℕ → ℕ → List (Scenario F) → Action → Tally → Result (Option Tally)
  adaptation_loop zero seed truths to t = ok (some t)
  adaptation_loop (suc n) seed truths to t = do
    outcomes ← run truths seed
    adaptations ← adaptation_times truths outcomes
    go_on (add_adaptations to t adaptations) (adaptation_loop n (seed + 1) truths to)

  -- The mean, or `none` where `adapted` is false.
  unfoldable pub mean_adaptation : List (Scenario F) → Action → Result (Option F)
  mean_adaptation truths to = do
    tally ← adaptation_loop seeds 0 truths to start
    ok (option_map (λ t. fl.of_int t.total ⊘ fl.of_int (pos t.count)) tally)

  unfoldable pub error_loop : ℕ → ℕ → List (Scenario F) → Tally → Result Tally
  error_loop zero seed truths t = ok t
  error_loop (suc n) seed truths t = do
    outcomes ← run truths seed
    error_loop n (seed + 1) truths (add_errors t outcomes)

  -- The mean, or `none` where `transferred` is false.
  unfoldable pub mean_transfer_error_ms : List (Scenario F) → Result (Option F)
  mean_transfer_error_ms truths = do
    t ← error_loop seeds 0 truths start
    ok (
        if t.count == 0
        then none
        else some (fl.of_int t.total ⊘ millisecond ⊘ fl.of_int (pos t.count)))
