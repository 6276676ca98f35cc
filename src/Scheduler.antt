-- ===== src/Scheduler.antt =====
-- internal/scheduler/scheduler.go: execution plans and the choice among them.
pub mod Choice
pub mod Actions
use Prim.Native.String.{String}
use text.Mathlib.Text.{◌==◌ as str_eq}
use kvflow.Prelude.{Bool, true, false, List, [], ◌∷◌, Result, ok, err, no_candidates, if◌then◌else◌}
use kvflow.Int.{ℤ, ltb_ℤ}

-- An `Action` is a Go string: the three constants, and every other string.
pub data Action : Type 0 where
  wait transfer recompute : Action
  other : String → Action

unfoldable pub action_eq : Action → Action → Bool
action_eq wait wait = true
action_eq transfer transfer = true
action_eq recompute recompute = true
action_eq (other s) (other t) = str_eq s t
action_eq _ _ = false

pub record Candidate : Type 0 where
  pub action : Action
  pub estimated_ttft : ℤ

abbrev pub is_faster : Candidate → Candidate → Bool
is_faster c best = ltb_ℤ c.estimated_ttft best.estimated_ttft

-- The loop over `candidates[1:]`.
unfoldable pub choose_from : Candidate → List Candidate → Candidate
choose_from best [] = best
choose_from best (c ∷ cs) = choose_from (if is_faster c best then c else best) cs

unfoldable pub choose_lowest_ttft : List Candidate → Result Candidate
choose_lowest_ttft [] = err no_candidates
choose_lowest_ttft (c ∷ cs) = ok (choose_from c cs)
