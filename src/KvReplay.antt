-- ===== src/KvReplay.antt =====
-- cmd/kvreplay/main.go: what each learner predicts of each transfer of a recorded run, before it sees
-- the transfer.
pub mod Columns
pub mod Table
use kvflow.XferCsv.{Row}
use kvflow.Int.{ℤ, pos}
use kvflow.Learner.Ewma.{Ewma, ewma, new_ewma}
use kvflow.Float64.{Float64, one, ◌⊘◌, seconds, ◌⊕◌, ◌⊗◌}
use kvflow.Learner.Line.{Line, line, new_line}
use kvflow.Prelude.{◌>>=◌, [], ◌∷◌, zero, suc, none, some, true, false, List, Result, ok, ◌++◌}
use kvflow.Learner.{Learner}

-- A `simulator.Learner` of this command: one of two kinds.
pub data AnyLearner (F : Type 0) : Type 0 where
  line_learner : Line F → AnyLearner F
  ewma_learner : Ewma F → AnyLearner F

module _ {F : Type 0} ⦃fl : Float64 F⦄ where
  abbrev pub observe_any : AnyLearner F → F → F → AnyLearner F
  observe_any (line_learner l) bytes seconds = line_learner (line.observe l bytes seconds)
  observe_any (ewma_learner l) bytes seconds = ewma_learner (ewma.observe l bytes seconds)

  abbrev pub startup_any : AnyLearner F → ℤ
  startup_any (line_learner l) = line.startup l
  startup_any (ewma_learner l) = ewma.startup l

  abbrev pub rate_any : AnyLearner F → F
  rate_any (line_learner l) = line.seconds_per_byte l
  rate_any (ewma_learner l) = ewma.seconds_per_byte l

  abbrev pub any_learner : Learner F (AnyLearner F)
  any_learner = record { observe = observe_any; startup = startup_any; seconds_per_byte = rate_any }

  -- `1.0 / 10e9`, and the alphas 0.1 and 0.5.
  abbrev pub initial_seconds_per_byte : F
  initial_seconds_per_byte = one ⊘ fl.of_int (pos 10_000_000_000)

  abbrev pub alphas : List F
  alphas = fl.tenth ∷ one ⊘ fl.of_int (pos 2) ∷ []

  unfoldable pub new_lines : List F → Result (List (AnyLearner F))
  new_lines [] = ok []
  new_lines (alpha ∷ rest) = do
    l ← new_line alpha initial_seconds_per_byte
    ls ← new_lines rest
    ok (line_learner l ∷ ls)

  unfoldable pub new_ewmas : List F → Result (List (AnyLearner F))
  new_ewmas [] = ok []
  new_ewmas (alpha ∷ rest) = do
    l ← new_ewma alpha initial_seconds_per_byte
    ls ← new_ewmas rest
    ok (ewma_learner l ∷ ls)

  -- The learners of `main`, or the error that it logs.
  unfoldable pub new_learners : Result (List (AnyLearner F))
  new_learners = do lines ← new_lines alphas; ewmas ← new_ewmas alphas; ok (lines ++ ewmas)

  module _ {L : Type 0} (learner : Learner F L) where
    abbrev pub prediction : Row F → L → F
    prediction r l = seconds (learner.startup l) ⊕ r.bytes ⊗ learner.seconds_per_byte l

    -- The inner loop: the predictions for a row, and the learners after it.
    unfoldable pub replay_row : Row F → List L → List F × List L
    replay_row r [] = ([], [])
    replay_row r (l ∷ ls) =
        let (ps, ls') = replay_row r ls in
        (prediction r l ∷ ps, learner.observe l r.bytes r.seconds ∷ ls')

    unfoldable pub replay : List (Row F) → List L → List (List F)
    replay [] ls = []
    replay (r ∷ rs) ls = let (ps, ls') = replay_row r ls in ps ∷ replay rs ls'
