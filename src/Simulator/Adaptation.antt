-- ===== src/Simulator/Adaptation.antt =====
-- internal/simulator/adaptation.go: how long a policy took to believe each new best action.
pub mod Settling
pub mod Changes
use kvflow.Prelude.{
  ℕ, ◌+◌, Bool, true, false, Option, none, some, List, [], ◌∷◌, Result, ok, err, ◌>>=◌,
  length_mismatch, length, if◌then◌else◌, ◌==◌, is_some,
}
use kvflow.Float64.{Float64}
use kvflow.Scheduler.{Action, action_eq}
use kvflow.Simulator.{Scenario, Outcome, best_actual}

pub record Adaptation : Type 0 where
  pub at : ℕ
  pub from : Action
  pub to : Action
  pub requests : ℕ
  pub adapted : Bool

-- The loop over `j`, after `n` requests of the window: the requests until the belief matched.
unfoldable pub settled : Action → ℕ → List Action → List Outcome → Option ℕ
settled to n [] os = none
settled to n (b ∷ bs) [] = none
settled to n (b ∷ bs) (o ∷ os) =
    let rest = settled to (n + 1) bs os in
    if action_eq b to then (if action_eq o.believed to then some n else rest) else none

abbrev pub requests_of : Option ℕ → ℕ
requests_of none = 0
requests_of (some n) = n

abbrev pub adaptation : ℕ → Action → Action → Option ℕ → Adaptation
adaptation i from to n = record {
  at = i;
  from = from;
  to = to;
  requests = requests_of n;
  adapted = is_some n;
}

-- The loop over `i`, where `previous` was the best action of the request before.
unfoldable pub changes : ℕ → Action → List Action → List Outcome → List Adaptation
changes i previous [] os = []
changes i previous (b ∷ bs) [] = []
changes i previous (b ∷ bs) (o ∷ os) =
    let rest = changes (i + 1) b bs os in
    if action_eq b previous
    then rest
    else adaptation i previous b (settled b 0 (b ∷ bs) (o ∷ os)) ∷ rest

-- The loop from `i = 1`.
unfoldable pub all_changes : List Action → List Outcome → List Adaptation
all_changes [] os = []
all_changes (b ∷ bs) [] = []
all_changes (b ∷ bs) (o ∷ os) = changes 1 b bs os

module _ {F : Type 0} ⦃fl : Float64 F⦄ where
  unfoldable pub best_actions : List (Scenario F) → Result (List Action)
  best_actions [] = ok []
  best_actions (truth ∷ truths) = do
    choice ← best_actual truth
    best ← best_actions truths
    ok (choice.action ∷ best)

  unfoldable pub adaptation_times : List (Scenario F) → List Outcome → Result (List Adaptation)
  adaptation_times truths outcomes =
      if length truths == length outcomes
      then (best_actions truths >>= λ best. ok (all_changes best outcomes))
      else err length_mismatch
