-- ===== src/Controller/Report.antt =====
-- internal/controller/csv.go: `WriteCSV`, up to the fields that it hands to the csv writer. How
-- `fmt` and `strconv` print a number is a parameter.
pub mod Cells
use Prim.Native.String.{String}
use kvflow.Prelude.{[], ◌∷◌, none, some, if◌then◌else◌, ◌+◌, is_some}
use kvflow.Scheduler.{Action, action_eq, transfer, wait, recompute, other}
use kvflow.Simulator.{Scenario}
use kvflow.Controller.{RunResult, CallError, prefix_bytes, ℤ, Option, List, ℕ, pos}
use kvflow.Float64.{Float64, seconds}

-- `"%.6f"` of a float, and the decimal form of an integer.
pub record Printer (F : Type 0) : Type 0 where
  pub six_places : F → String
  pub decimal : ℤ → String

abbrev pub action_text : Action → String
action_text wait = "wait"
action_text transfer = "transfer"
action_text recompute = "recompute"
action_text (other s) = s

abbrev pub error_text : Option CallError → String
error_text none = ""
error_text (some e) = e.text

abbrev pub headings : List String
headings = "index" ∷ "at" ∷ "bytes" ∷ "believed" ∷ "action" ∷ "predicted" ∷ "actual" ∷ "error" ∷ []

module _ {F : Type 0} ⦃fl : Float64 F⦄ (printer : Printer F) where
  unfoldable pub actual_text : RunResult F → String
  actual_text r =
      if is_some r.error
      then ""
      else if action_eq r.action transfer
      then printer.six_places r.seconds_taken
      else ""

  unfoldable pub row : ℕ → Scenario F → RunResult F → List String
  row i s r =
      printer.decimal (pos (i + 1))
      ∷ printer.six_places (seconds r.at)
      ∷ printer.decimal (prefix_bytes s)
      ∷ action_text r.believed_action
      ∷ action_text r.action
      ∷ printer.six_places r.predicted_seconds
      ∷ actual_text r
      ∷ error_text r.error
      ∷ []

  -- The loop over the results, where `none` is a result without a scenario: an index out of range.
  unfoldable pub rows : ℕ → List (Scenario F) → List (RunResult F) → Option (List (List String))
  rows i ss [] = some []
  rows i [] (r ∷ rs) = none
  rows i (s ∷ ss) (r ∷ rs) = elim (rows (i + 1) ss rs) [
    | none ↦ none
    | some rest ↦ some (row i s r ∷ rest)
  ]

  unfoldable pub write_csv : List (Scenario F) → List (RunResult F) → Option (List (List String))
  write_csv ss rs = elim (rows 0 ss rs) [ none ↦ none | some rest ↦ some (headings ∷ rest) ]
