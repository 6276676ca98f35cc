-- ===== src/Examples.antt =====
-- Runs of the model on whole numbers, and each theorem at an input that meets its hypotheses.
use kvflow.CostModel.Bandwidth.{with_bandwidth, transfer_stays_best}
use kvflow.Scheduler.Choice.{IsFirstFastest, choose_lowest_ttft_iff}
use kvflow.CostModel.Bounds.{IsWithin, estimate_exact}
use kvflow.CostModel.Validity.{IsValid, in_order, estimate_iff}
use kvflow.Simulator.{Scenario, inputs}
use kvflow.Int.{◌+ℤ◌, ℤ, pos, ◌-ℤ◌, ◌≤ℤ◌, ◌*ℤ◌, wrap64}
use kvflow.Prelude.{
  refl, [], ◌∷◌, List, ◌≡◌, ℕ, ok, ◌↔◌, arith, err, ◌>>=◌, no_candidates, invalid_inputs,
}
use kvflow.Whole.{whole, whole-IsIeee}
use kvflow.Scheduler.{
  Candidate, wait, transfer, recompute, action_eq, choose_from, choose_lowest_ttft, Action,
}
use kvflow.CostModel.{Inputs}
use kvflow.CostModel

unfoldable pub program : Unit {0}
unfolding ◌+ℤ◌ ◌-ℤ◌ ◌*ℤ◌ wrap64 action_eq choose_from choose_lowest_ttft
    CostModel.is_finite_positive CostModel.is_refused CostModel.duration_for CostModel.suffix_a
    CostModel.suffix_b CostModel.send_time CostModel.prefix_and_suffix_b CostModel.plans
    CostModel.estimate
program = tt

abbrev pub busy_source : Scenario ℤ
busy_source = record {
  source = record { queue = pos 5_000_000_000; prefill_tokens_per_sec = pos 50 };
  destination = record { queue = pos 1_000_000_000; prefill_tokens_per_sec = pos 50 };
  request = record { prefix_tokens = pos 1000; suffix_tokens = pos 100 };
  kv_bytes_per_token = pos 40;
  bandwidth_bytes_per_sec = pos 20_000;
  transfer_startup = pos 0;
}

abbrev pub busy_inputs : Inputs ℤ
busy_inputs = inputs busy_source (pos 0)

abbrev pub candidate : Action → ℕ → Candidate
candidate a t = record { action = a; estimated_ttft = pos t }

abbrev pub busy_candidates : List Candidate
busy_candidates =
    candidate wait 7_000_000_000
    ∷ candidate transfer 4_000_000_000
    ∷ candidate recompute 23_000_000_000
    ∷ []

pub busy_estimate : CostModel.estimate busy_inputs ≡ ok busy_candidates
unfolding program
busy_estimate = refl

pub busy_IsValid : IsValid busy_inputs
busy_IsValid = ground arith

pub busy_IsWithin : IsWithin busy_inputs
unfolding program
busy_IsWithin = ground arith

choose_lowest_ttft_iff_example :
    ((choose_lowest_ttft busy_candidates ≡ ok (candidate transfer 4_000_000_000))
      ↔ IsFirstFastest busy_candidates (candidate transfer 4_000_000_000))
    × ((choose_lowest_ttft busy_candidates ≡ err no_candidates) ↔ (busy_candidates ≡ []))
choose_lowest_ttft_iff_example =
    choose_lowest_ttft_iff busy_candidates (candidate transfer 4_000_000_000)

estimate_iff_example :
    (IsValid busy_inputs
      → (a : ℤ) × (b : ℤ) × (c : ℤ) × (CostModel.estimate busy_inputs ≡ ok (in_order a b c)))
    × (¬ IsValid busy_inputs → CostModel.estimate busy_inputs ≡ err invalid_inputs)
estimate_iff_example = estimate_iff busy_inputs

estimate_exact_example :
    (CostModel.estimate busy_inputs ≡ ok busy_candidates)
    × (pos 5_000_000_000 ≤ℤ pos 7_000_000_000)
    × (pos 1_000_000_000 ≤ℤ pos 4_000_000_000)
    × (pos 0 ≤ℤ pos 4_000_000_000)
    × (pos 1_000_000_000 ≤ℤ pos 23_000_000_000)
unfolding program
estimate_exact_example = estimate_exact whole-IsIeee busy_inputs busy_IsValid busy_IsWithin

transfer_stays_best_example :
    (d : Candidate) × ((CostModel.estimate (with_bandwidth busy_inputs (pos 40_000))
        >>= choose_lowest_ttft)
      ≡ ok d)
    × (d.action ≡ transfer)
    × (d.estimated_ttft ≤ℤ pos 4_000_000_000)
unfolding program
transfer_stays_best_example =
    transfer_stays_best whole-IsIeee busy_inputs busy_IsValid busy_IsWithin (pos 40_000)
      (ground arith) refl (candidate transfer 4_000_000_000) refl refl
