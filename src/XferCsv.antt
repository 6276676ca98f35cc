-- ===== src/XferCsv.antt =====
-- internal/xfercsv/xfercsv.go: the rows of kvxfer's CSV. Splitting the text into records of fields is
-- encoding/csv's; reading a field as a number is strconv's, and a parameter.
pub mod Reading
use Prim.Native.String.{String, ◌++◌ as str_append}
use text.Mathlib.Text.{◌==◌ as str_eq}
use kvflow.Prelude.{
  ℕ, zero, suc, ◌+◌, Bool, Option, none, some, List, [], ◌∷◌, Error, empty_input, bad_header,
  bad_line, if◌then◌else◌,
}
use kvflow.Int.{ℤ}

pub record Row (F : Type 0) : Type 0 where
  pub reuse : Bool
  pub round : ℤ
  pub bytes : F
  pub seconds : F

-- strconv.ParseBool, strconv.Atoi and strconv.ParseFloat: a value, or an error.
pub record Fields (F : Type 0) : Type 0 where
  pub parse_bool : String → Option Bool
  pub atoi : String → Option ℤ
  pub parse_float : String → Option F

-- `Header`, and what strings.Join gives of a record.
abbrev pub header : String
header = "reuse,round,bytes,seconds"

unfoldable pub join : List String → String
join [] = ""
join (s ∷ []) = s
join (s ∷ (t ∷ rest)) = str_append s (str_append "," (join (t ∷ rest)))

-- How `Parse` ends: with rows, with an error, or in an index out of range.
pub data Parsed (F : Type 0) : Type 0 where
  parsed : List (Row F) → Parsed F
  refused : Error → Parsed F
  panicked : Parsed F

-- Four fields that were read, or the error of one of them.
abbrev pub all_four : {F : Type 0} → Option Bool → Option ℤ → Option F → Option F → Option (Row F)
all_four (some reuse) (some round) (some bytes) (some seconds) =
    some (record { reuse = reuse; round = round; bytes = bytes; seconds = seconds })
all_four _ _ _ _ = none

abbrev pub with_row : {F : Type 0} → Row F → Parsed F → Parsed F
with_row r (parsed rows) = parsed (r ∷ rows)
with_row r other = other

-- The result of a record with this row: an error is reported with its line.
abbrev pub row_then : {F : Type 0} → ℕ → Option (Row F) → Parsed F → Parsed F
row_then i none rest = refused (bad_line (i + 1))
row_then i (some r) rest = with_row r rest

module _ {F : Type 0} (fields : Fields F) where
  -- The loop over the records after the header, from index `i`.
  unfoldable pub parse_rows : ℕ → List (List String) → Parsed F
  parse_rows i [] = parsed []
  parse_rows i ((a ∷ b ∷ c ∷ d ∷ more) ∷ records) =
      row_then i
        (all_four (fields.parse_bool a) (fields.atoi b) (fields.parse_float c)
          (fields.parse_float d))
        (parse_rows (i + 1) records)
  parse_rows i (_ ∷ records) = panicked

  unfoldable pub parse : List (List String) → Parsed F
  unfolding join
  parse [] = refused empty_input
  parse (first ∷ records) =
      if str_eq (join first) header then parse_rows 1 records else refused bad_header
