-- ===== src/KvXferRuns.antt =====
-- Runs of kvxfer, and the output of one read back.
use kvflow.XferCsv.Reading.{HasFour, Reads, IsFirstBad, parse_lem}
use kvflow.KvXfer.Output.{IsReadBack, row_of, parse-output}
use kvflow.XferCsv.{Fields, parse, join, header, parsed, Row, panicked, refused, parse_rows}
use kvflow.Int.{ℤ, pos, negsuc}
use kvflow.KvXfer.Modes.{World, Flags, unknown_mode, main}
use kvflow.KvXfer.Report.{Returns, run_ends}
use kvflow.KvXfer.{
  Options, Link, Timing, Progress, run, Verbs, rounds, output, heading, one_round, one_transfer,
  broke, no_send,
}
use Prim.Native.String.{String}
use text.Mathlib.Text.{◌==◌ as str_eq}
use kvflow.Whole.{whole}
use kvflow.Prelude.{
  [], ◌∷◌, none, some, refl, true, false, Option, ℕ, List, All, if◌then◌else◌, arith, ◌≡◌, map, ◌⊎◌,
  bad_line, ◌+◌, bad_header, ◌==◌,
}

-- Two rounds of two sizes, each transfer on a connection of its own.
abbrev fresh : Options
fresh = record {
  reuse = false;
  sizes = pos 1 ∷ pos 4 ∷ [];
  repeats = pos 2;
  has_duration = false;
  has_gap = true;
}

-- The last send fails.
abbrev breaking : Link ℤ
breaking = record {
  dials = λ i. true;
  sends = λ i. if i == 3 then none else some (pos (i + 2));
  has_passed = λ i. false;
}

abbrev line_of : ℕ → ℕ → ℕ → Timing ℤ
line_of round n seconds = record {
  reuse = false;
  round = pos round;
  size = pos n;
  seconds = pos seconds;
}

abbrev printed_lines : Progress ℤ
printed_lines = record {
  has_heading = true;
  printed = line_of 1 1 2 ∷ line_of 1 4 3 ∷ line_of 2 1 4 ∷ [];
  gaps = 3;
  dialed = 4;
  closed = 4;
}

breaking-run : run fresh breaking 2 ≡ some (broke printed_lines no_send)
unfolding run rounds one_round one_transfer
breaking-run = refl

run_ends_example : Returns fresh breaking (run fresh breaking 2)
run_ends_example = run_ends fresh breaking 2 (omega arith) refl

abbrev digit : ℤ → String
digit (pos n) =
    if n == 1
    then "1"
    else if n == 2
    then "2"
    else if n == 3
    then "3"
    else if n == 4
    then "4"
    else "?"
digit (negsuc n) = "-"

abbrev undigit : String → Option ℤ
undigit s =
    if str_eq s "1"
    then some (pos 1)
    else if str_eq s "2"
    then some (pos 2)
    else if str_eq s "3"
    then some (pos 3)
    else if str_eq s "4"
    then some (pos 4)
    else none

abbrev words : Verbs ℤ
words = record {
  print_bool = λ b. if b then "true" else "false";
  print_int = digit;
  print_seconds = digit;
}

abbrev reader : Fields ℤ
reader = record {
  parse_bool =
      λ s. if str_eq s "true" then some true else if str_eq s "false" then some false else none;
  atoi = undigit;
  parse_float = undigit;
}

line_of-IsReadBack_one : IsReadBack words reader (λ x. x) (line_of 1 1 2)
line_of-IsReadBack_one = record { mode = refl; round = refl; size = refl; time = refl }

line_of-IsReadBack_two : IsReadBack words reader (λ x. x) (line_of 1 4 3)
line_of-IsReadBack_two = record { mode = refl; round = refl; size = refl; time = refl }

line_of-IsReadBack_three : IsReadBack words reader (λ x. x) (line_of 2 1 4)
line_of-IsReadBack_three = record { mode = refl; round = refl; size = refl; time = refl }

parse-output_example :
    parse reader (output words printed_lines)
    ≡ parsed (map (row_of words reader (λ x. x)) printed_lines.printed)
parse-output_example =
    parse-output words reader (λ x. x) printed_lines refl
      (line_of-IsReadBack_one, (line_of-IsReadBack_two, (line_of-IsReadBack_three, tt)))

-- The second record has a round that is no number.
abbrev odd_records : List (List String)
odd_records = ("true" ∷ "1" ∷ "4" ∷ "2" ∷ []) ∷ ("true" ∷ "one" ∷ "4" ∷ "2" ∷ []) ∷ []

odd_records-HasFour : All HasFour odd_records
odd_records-HasFour = (omega arith, (omega arith, tt))

parse_lem_example :
    (str_eq (join heading) header ≡ true
      → ((rows : List (Row ℤ)) × (parse reader (heading ∷ odd_records) ≡ parsed rows)
          × Reads reader odd_records rows)
        ⊎ ((j : ℕ) × (parse reader (heading ∷ odd_records) ≡ refused (bad_line (j + 2)))
            × IsFirstBad reader odd_records j))
    × (str_eq (join heading) header ≡ false
        → parse reader (heading ∷ odd_records) ≡ refused bad_header)
parse_lem_example = parse_lem reader heading odd_records odd_records-HasFour

-- A header of one quoted field with commas in it passes; then a row of one field is out of range.
quoted_header : parse reader ((header ∷ []) ∷ ("true" ∷ []) ∷ []) ≡ panicked
unfolding parse parse_rows
quoted_header = refl

-- A network on which every dial and every send works.
abbrev working : World ℤ
working = record {
  listen = λ addr. none;
  visits = [];
  link = λ addr. record { dials = λ i. true; sends = λ i. some (pos i); has_passed = λ i. false };
}

abbrev each_dialed : Flags
each_dialed = record { addr = "localhost:9000"; reuse = false; duration = pos 0; gap = pos 1 }

unknown : main working 5 ("serve" ∷ []) each_dialed ≡ unknown_mode "serve"
unfolding main
unknown = refl
