-- ===== src/WorkloadRuns.antt =====
-- The workloads at small numbers of requests.
use kvflow.Int.{ℤ, pos, ◌≤ℤ◌, ◌<ℤ◌, wrap64, ◌+ℤ◌}
use kvflow.Simulator.{Scenario}
use kvflow.Simulator.Workload.Periods.{Phases}
use kvflow.Simulator.Workload.Flaps.{flapping_lem}
use kvflow.Simulator.Workload.{
  assign, assign_range, assign_between, slowdown_then_recovery, flapping, flap_loop,
}
use kvflow.Prelude.{
  refl, [], ◌∷◌, ◌≡◌, length, ℕ, List, ◌%◌, ◌<◌, ◌^◌, err, ◌+◌, arith, some, ◌⊎◌, ok,
  invalid_period, false,
}
use kvflow.Examples.{busy_source}

abbrev congested : Scenario ℤ
congested = record busy_source { bandwidth_bytes_per_sec = pos 10 }

six_requests :
    slowdown_then_recovery 6 busy_source congested
    ≡ busy_source ∷ busy_source ∷ congested ∷ congested ∷ busy_source ∷ busy_source ∷ []
unfolding slowdown_then_recovery assign_range assign
six_requests = refl

-- A generator that counts.
abbrev counting : ℕ → ℕ → ℕ × ℕ
counting rng k = (rng % k, rng + 1)

counting_below : (rng k : ℕ) → 0 < k → (counting rng k).0 < k
counting_below rng k h = omega arith

flapping_lem_example :
    ((pos 2 ≤ℤ pos 0) ⊎ (pos 3 <ℤ pos 2)
      → flapping counting 0 7 (pos 2) (pos 3) busy_source congested ≡ err invalid_period)
    × (pos 0 <ℤ pos 2
        → pos 2 ≤ℤ pos 3
        → 7 + 3 < 2 ^ 63
        → (truths : List (Scenario ℤ)) × (flapping counting 0 7
              (pos 2)
              (pos 3)
              busy_source
              congested
            ≡ ok (some truths))
          × (length truths ≡ 7)
          × Phases 2 3 busy_source congested false truths)
flapping_lem_example =
    flapping_lem counting counting_below 0 7 (pos 2) (pos 3) busy_source congested

seven_flapping :
    flapping counting 0 7 (pos 2) (pos 3) busy_source congested
    ≡ ok (
        some (
          busy_source ∷ busy_source ∷ congested ∷ congested ∷ congested ∷ busy_source ∷ busy_source
          ∷ []))
unfolding flapping flap_loop assign_between assign_range assign wrap64 ◌+ℤ◌
seven_flapping = refl
