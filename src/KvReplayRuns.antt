-- ===== src/KvReplayRuns.antt =====
-- A replay of two transfers on whole numbers, whose division rounds up so that its alphas are positive.
use Prim.Native.String.{String}
use kvflow.Prelude.{ℕ, ◌≡◌, refl, some, true, List, [], ◌∷◌, ok, err, length, map, get_elem?, take}
use kvflow.Int.{ℤ, pos}
use kvflow.Learner.Line.{new_line}
use kvflow.Learner.Ewma.{new_ewma}
use kvflow.XferCsv.{Row, parsed}
use kvflow.KvReplay.{AnyLearner, any_learner, new_learners, new_lines, new_ewmas, prediction}
use kvflow.KvReplay.Columns.{after}
use kvflow.KvReplay.Table.{Verbs, printed, heading, line, main, main_lem}
use kvflow.KvControlRuns.{upward}

abbrev first_row : Row ℤ
first_row = record { reuse = true; round = pos 1; bytes = pos 10; seconds = pos 2 }

abbrev second_row : Row ℤ
second_row = record { reuse = true; round = pos 2; bytes = pos 6; seconds = pos 3 }

abbrev rows : List (Row ℤ)
rows = first_row ∷ second_row ∷ []

abbrev verbs : Verbs ℤ
verbs = record {
  decimal = λ n. "n";
  no_places = λ x. "b";
  one_place = λ x. "a";
  six_places = λ x. "s";
}

abbrev learners : List (AnyLearner ℤ)
unfolding new_learners new_lines new_ewmas new_line new_ewma
learners = elim (new_learners ⦃fl = upward⦄) [ err e ↦ [] | ok ls ↦ ls ]

main_lem_example :
    (lines : List (List String)) × (main ⦃fl = upward⦄ verbs (parsed rows)
      ≡ printed (heading ⦃fl = upward⦄ verbs ∷ lines))
    × (length lines ≡ 2)
    × ((i : ℕ) (r : Row ℤ)
        → get_elem? rows i ≡ some r
        → get_elem? lines i
          ≡ some (
              line ⦃fl = upward⦄ verbs i r (
                map
                  (λ l.
                    prediction ⦃fl = upward⦄
                      (any_learner ⦃fl = upward⦄)
                      r
                      (after ⦃fl = upward⦄ (any_learner ⦃fl = upward⦄) l (take i rows)))
                  learners)))
unfolding new_learners new_lines new_ewmas new_line new_ewma
main_lem_example = main_lem ⦃fl = upward⦄ verbs rows learners refl
