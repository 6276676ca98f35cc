-- ===== src/ChangeRuns.antt =====
-- A run whose best action changes once, and the theorem on adaptations at it.
use kvflow.Scheduler.{Action, wait, transfer}
use kvflow.Int.{ℤ, pos}
use kvflow.Examples.{program, busy_source}
use kvflow.Simulator
use kvflow.Simulator.{Outcome, Scenario}
use kvflow.Simulator.Adaptation.{
  Adaptation, settled, changes, all_changes, best_actions, adaptation_times,
}
use kvflow.Simulator.Adaptation.Changes.{AreChanges, IsBest, adaptation_times_lem}
use kvflow.Prelude.{refl, [], ◌∷◌, List, length, true, ◌≡◌, Matched, ok}
use kvflow.Whole.{whole}

-- The source is idle at first, so waiting is best.
abbrev idle_source : Scenario ℤ
idle_source = record busy_source {
  source = record { queue = pos 0; prefill_tokens_per_sec = pos 50 };
}

abbrev pub worsening : List (Scenario ℤ)
worsening = idle_source ∷ busy_source ∷ busy_source ∷ []

abbrev believing : Action → Outcome
believing a = record {
  regret = pos 0;
  believed = a;
  executed = a;
  predicted = pos 0;
  actual = pos 0;
}

abbrev pub late : List Outcome
late = believing wait ∷ believing wait ∷ believing transfer ∷ []

abbrev pub reports : List Adaptation
reports = record { at = 1; from = wait; to = transfer; requests = 1; adapted = true } ∷ []

pub late-reports : adaptation_times worsening late ≡ ok reports
unfolding program Simulator.estimate Simulator.actual_costs Simulator.best_actual settled changes
    all_changes best_actions adaptation_times
late-reports = refl

adaptation_times_lem_example :
    (best : List Action) × (length worsening ≡ length late)
    × Matched IsBest worsening best
    × AreChanges best late reports
adaptation_times_lem_example = adaptation_times_lem worsening late late-reports
