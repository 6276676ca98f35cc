-- ===== src/KvFit/Sections.antt =====
-- cmd/kvfit/main.go: `main`, which takes the rows that the parser of the CSV gives and prints a section for
-- each selection of them that has a row. How a number is printed is left out: a section is what it is
-- printed from.
use Prim.Native.String.{String}
use kvflow.Prelude.{
  ℕ, Bool, true, false, none, some, List, [], ◌∷◌, ◌++◌, Error, ok, err, length, if◌then◌else◌,
  ◌==◌,
}
use kvflow.Int.{ℤ, pos, ltb_ℤ}
use kvflow.Float64.{Float64}
use kvflow.XferCsv.{Row, Parsed, parsed, refused, panicked}
use kvflow.KvFit.{SizeError, filter, fit, errors_by_size}

-- A mode of the connection and the first round kept.
abbrev pub Choice : Type 0
Choice = Bool × ℤ

-- What a section is printed from.
pub record Section (F : Type 0) : Type 0 where
  pub reuse : Bool
  pub label : String
  pub transfers : ℕ
  pub startup : ℤ
  pub seconds_per_byte : F
  pub errors : List (SizeError F)

-- How `main` ends: by `log.Fatal`, after the sections it had printed; in an index out of range; or in all
-- its sections.
pub data Exit (F : Type 0) : Type 0 where
  fatal : Error → List (Section F) → Exit F
  out_of_range : Exit F
  printed : List (Section F) → Exit F

-- The two loops.
abbrev pub choices : List Choice
choices = (false, pos 1) ∷ (false, pos 2) ∷ (true, pos 1) ∷ (true, pos 2) ∷ []

module _ {F : Type 0} ⦃fl : Float64 F⦄ where
  abbrev pub section_of : Choice → List (Row F) → ℤ × F → Section F
  section_of c sel line = record {
    reuse = c.0;
    label = if ltb_ℤ (pos 1) c.1 then "without round 1" else "all rounds";
    transfers = length sel;
    startup = line.0;
    seconds_per_byte = line.1;
    errors = errors_by_size sel line.0 line.1;
  }

  -- The body of the loops, with the sections printed so far, and then the rounds after it.
  unfoldable pub sections : List (Row F) → List (Section F) → List Choice → Exit F
  sections rows done [] = printed done
  sections rows done (c ∷ more) =
      let sel = filter rows c.0 c.1 in
      let skipped = sections rows done more in
      if length sel == 0 then skipped else elim (fit sel) [
        | none ↦ out_of_range
        | some (err e) ↦ fatal e done
        | some (ok line) ↦ sections rows (done ++ (section_of c sel line ∷ [])) more
      ]

  -- `main`, given what `xfercsv.Parse` returns.
  unfoldable pub main : Parsed F → Exit F
  main (refused e) = fatal e []
  main panicked = out_of_range
  main (parsed rows) = sections rows [] choices
