-- ===== src/KvFitRuns.antt =====
-- The errors by size of three transfers.
use kvflow.Float64.{◌⊘◌, Float64, seconds, ◌⊕◌, ◌⊗◌}
use kvflow.KvFit.Sizes.{seconds_of, count_of, first_sizes, errors_by_size_lem}
use kvflow.XferCsv.{Row}
use kvflow.KvFit.{errors_by_size, sum_rows, filter}
use kvflow.Int.{◌*ℤ◌, ◌+ℤ◌, pos, ℤ}
use kvflow.Prelude.{[], ◌∷◌, refl, true, ℕ, List, ◌≡◌, map}
use kvflow.XferCsv.{parsed}
use kvflow.KvFit.Sections.{choices, main, printed, sections}
use kvflow.KvFit.Fitted.{Ends, main-Ends}
use kvflow.Whole.{whole, whole-IsIeee}

abbrev moved : ℕ → ℕ → ℕ → Row ℤ
moved round bytes seconds = record {
  reuse = true;
  round = pos round;
  bytes = pos bytes;
  seconds = pos seconds;
}

abbrev measured_rows : List (Row ℤ)
measured_rows = moved 1 10 2 ∷ moved 1 40 6 ∷ moved 2 10 4 ∷ []

errors_by_size_lem_example :
    errors_by_size measured_rows (pos 0) (pos 2)
    ≡ map
        (λ b. record {
          bytes = b;
          measured =
              seconds_of b (pos 0) measured_rows
              ⊘ Float64.of_int whole (pos (count_of b measured_rows));
          predicted = seconds (pos 0) ⊕ b ⊗ pos 2;
        })
        (first_sizes [] measured_rows)
errors_by_size_lem_example = errors_by_size_lem whole-IsIeee measured_rows (pos 0) (pos 2)

two_sizes :
    errors_by_size measured_rows (pos 0) (pos 2)
    ≡ record { bytes = pos 10; measured = pos 3; predicted = pos 20 }
      ∷ record { bytes = pos 40; measured = pos 6; predicted = pos 80 }
      ∷ []
unfolding errors_by_size sum_rows ◌*ℤ◌ ◌+ℤ◌
two_sizes = refl

later_rounds : filter measured_rows true (pos 2) ≡ moved 2 10 4 ∷ []
unfolding filter
later_rounds = refl

main-Ends_example : Ends measured_rows [] choices (main (parsed measured_rows))
main-Ends_example = main-Ends measured_rows

-- Without rows there is no section.
no_sections : main {F = ℤ} (parsed []) ≡ printed []
unfolding main sections filter
no_sections = refl
