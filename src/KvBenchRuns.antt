-- ===== src/KvBenchRuns.antt =====
-- Means over seeds, and the columns of a replay.
use kvflow.Scheduler.{transfer}
use kvflow.KvBench.Means.{
  requests, Outcomes, Reports, relevant, concat, all_adapted, tally, mean_adaptation_lem,
}
use kvflow.Float64.{◌⊘◌, Float64}
use kvflow.Simulator.Adaptation.{adaptation_times, best_actions, all_changes}
use kvflow.Int.{ℤ, pos}
use kvflow.KvBench.{
  mean_regret_ms, mean_adaptation, adaptation_loop, mean_transfer_error_ms, add_adaptations, start,
}
use kvflow.Simulator.{Scenario, Outcome}
use kvflow.Prelude.{
  [], zero, suc, none, some, refl, List, ℕ, replicate, ◌+◌, ◌≡◌, ok, if◌then◌else◌, length, Result,
  ◌⊎◌, arith,
}
use kvflow.KvBench.Setup.{
  Rand, Verbs, Workloads, scenario, fast_bandwidth, static_policy, new_workloads, policies,
}
use kvflow.KvBench.Tables.{main}
use kvflow.KvBench.Printed.{IsPrinted, main-IsPrinted}
use kvflow.KvBench.Perfect.{static_stable_fast}
use kvflow.Simulator.Workload.{stable}
use kvflow.Whole.{whole, whole-IsIeee, whole-IsExact}
use kvflow.ChangeRuns.{worsening, late, reports, late-reports}

-- Every seed gives the same run.
abbrev same_run : List (Scenario ℤ) → ℕ → Result (List Outcome)
same_run truths seed = ok late

same-Outcomes : (n seed : ℕ) → Outcomes same_run worsening seed (replicate n late)
same-Outcomes zero seed = tt
same-Outcomes (suc n) seed = (refl, same-Outcomes n (seed + 1))

same-Reports : (n seed : ℕ) → Reports same_run worsening seed (replicate n reports)
same-Reports zero seed = tt
same-Reports (suc n) seed = ((late, refl, late-reports), same-Reports n (seed + 1))

mean_adaptation_lem_example :
    let xs = relevant transfer (concat (replicate 20 reports)) in
    mean_adaptation same_run worsening transfer
    ≡ ok (
        if all_adapted xs
        then some (
            Float64.of_int whole (tally requests start xs).total
            ⊘ Float64.of_int whole (pos (length xs)))
        else none)
mean_adaptation_lem_example =
    mean_adaptation_lem same_run worsening transfer (replicate 20 reports) refl (same-Reports 20 0)

-- Without change points the mean is 0 over 0.
no_changes : mean_adaptation (λ truths seed. ok []) [] transfer ≡ ok (some (pos 0 ⊘ pos 0))
unfolding mean_adaptation adaptation_loop adaptation_times best_actions all_changes add_adaptations
no_changes = refl

-- A generator that draws 0 always.
abbrev still : Rand ℤ ℕ
still = record { new = λ seed. seed; int_n = λ r m. (0, r); float64 = λ r. (pos 0, r) }

abbrev plain_verbs : Verbs ℤ
plain_verbs = record { one_place = λ x. "x"; decimal = λ x. "n" }

main-IsPrinted_example :
    (ws : Workloads ℤ) × (new_workloads still 2_000 ≡ ok (some ws))
    × IsPrinted plain_verbs (policies still plain_verbs) ws (main plain_verbs still)
main-IsPrinted_example = main-IsPrinted still (λ r m h. h) plain_verbs

static_stable_fast_example :
    let truths = stable 2 (scenario {F = ℤ} fast_bandwidth) in
    (mean_regret_ms static_policy.run truths ≡ ok (pos 0))
    × ((mean_transfer_error_ms static_policy.run truths ≡ ok none)
        ⊎ (mean_transfer_error_ms static_policy.run truths ≡ ok (some (pos 0))))
static_stable_fast_example = static_stable_fast whole-IsIeee whole-IsExact 2 (omega arith)

-- There are 17 policies.
policies_count : length (policies still plain_verbs) ≡ 17
unfolding policies
policies_count = refl
