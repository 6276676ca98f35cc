-- ===== src/KvLoadSim/Policies.antt =====
-- cmd/kvloadsim/main.go: the policies of `newPolicies`, with their names.
use Prim.Native.String.{String, ◌++◌ as str_append}
use kvflow.Prelude.{Bool, true, false, List, [], ◌∷◌, ◌++◌, Result, ok, ◌>>=◌, if◌then◌else◌}
use kvflow.Int.{ℤ, pos, ltb_ℤ}
use kvflow.Float64.{Float64, ◌⊘◌, one}
use kvflow.Learner.{Learner}
use kvflow.Learner.LastSample.{LastSample, last_sample, new_last_sample}
use kvflow.Learner.Ewma.{Ewma, ewma, new_ewma}
use kvflow.Learner.Line.{Line, line, new_line}
use kvflow.KvReplay.{initial_seconds_per_byte}
use kvflow.KvLoadSim.{Policy, oracle, cake, fixed, chunked}

-- A `simulator.Learner` of this command.
pub data AnyLearner (F : Type 0) : Type 0 where
  of_last : LastSample F → AnyLearner F
  of_ewma : Ewma F → AnyLearner F
  of_line : Line F → AnyLearner F

-- A policy, with the label of a `Chunked`.
pub record Named (F : Type 0) : Type 0 where
  pub label : String
  pub policy : Policy (AnyLearner F)

-- The methods `Name` of internal/loadsim/loadsim.go.
abbrev pub fixed_name : Bool → String
fixed_name true = "always-recompute"
fixed_name false = "always-load"

unfoldable pub name : {F : Type 0} → Named F → String
name p = elim p.policy [
  | oracle ↦ "oracle, one at a time"
  | cake ↦ "cake"
  | fixed recompute ↦ fixed_name recompute
  | chunked c ↦ p.label
]

-- math.Ceil, and `%d`.
pub record Stats (F : Type 0) : Type 0 where
  pub ceil : F → F
  pub decimal : ℤ → String

module _ {F : Type 0} ⦃fl : Float64 F⦄ where
  abbrev pub observe_any : AnyLearner F → F → F → AnyLearner F
  observe_any (of_last l) bytes seconds = of_last (last_sample.observe l bytes seconds)
  observe_any (of_ewma l) bytes seconds = of_ewma (ewma.observe l bytes seconds)
  observe_any (of_line l) bytes seconds = of_line (line.observe l bytes seconds)

  abbrev pub startup_any : AnyLearner F → ℤ
  startup_any (of_last l) = last_sample.startup l
  startup_any (of_ewma l) = ewma.startup l
  startup_any (of_line l) = line.startup l

  abbrev pub rate_any : AnyLearner F → F
  rate_any (of_last l) = last_sample.seconds_per_byte l
  rate_any (of_ewma l) = ewma.seconds_per_byte l
  rate_any (of_line l) = line.seconds_per_byte l

  abbrev pub any_learner : Learner F (AnyLearner F)
  any_learner = record { observe = observe_any; startup = startup_any; seconds_per_byte = rate_any }

  abbrev pub half : F
  half = one ⊘ fl.of_int (pos 2)

  module _ (stats : Stats F) where
    -- A probing policy has its interval in its label.
    abbrev pub chunked_policy : String → AnyLearner F → ℤ → Named F
    chunked_policy label l k = record {
      label =
          if ltb_ℤ (pos 0) k
          then str_append label (str_append ", probe " (stats.decimal k))
          else label;
      policy = chunked (record { learner = l; probe_every = k; since_load = 0 });
    }

    -- The inner loop: one policy without probing and one with it, each with a new learner.
    abbrev pub both_intervals : String → Result (AnyLearner F) → ℤ → Result (List (Named F))
    both_intervals label new probe = do
      l ← new
      m ← new
      ok (chunked_policy label l (pos 0) ∷ chunked_policy label m probe ∷ [])

    unfoldable pub new_policies : ℤ → Result (List (Named F))
    new_policies probe = do
      last ←
          both_intervals "last-sample"
            (new_last_sample initial_seconds_per_byte >>= λ l. ok (of_last l)) probe
      averaged ←
          both_intervals "ewma a=0.5"
            (new_ewma half initial_seconds_per_byte >>= λ l. ok (of_ewma l)) probe
      lines ←
          both_intervals "line a=0.5"
            (new_line half initial_seconds_per_byte >>= λ l. ok (of_line l)) probe
      ok (
          record { label = ""; policy = oracle }
          ∷ record { label = ""; policy = fixed false }
          ∷ record { label = ""; policy = fixed true }
          ∷ record { label = ""; policy = cake }
          ∷ (last ++ (averaged ++ lines)))
