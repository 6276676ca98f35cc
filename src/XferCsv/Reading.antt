-- ===== src/XferCsv/Reading.antt =====
-- What parsing kvxfer's CSV gives.
use kvflow.XferCsv.{
  Fields, parse_rows, parse, Row, row_then, header, all_four, parsed, join, refused,
}
use Prim.Native.String.{String}
use text.Mathlib.Text.{◌==◌ as str_eq}
use mathlib.Core.Option.{some-injective}
use kvflow.Prelude.{
  Option-cases, [], ◌∷◌, zero, suc, none, some, refl, inl, inr, true, false, Option, ◌≡◌, ◌⊎◌, List,
  ℕ, get_elem?, ◌≤◌, All, ◌<◌, length, ◌∙◌, ap, bad_line, arith, ◌+◌, bad_header,
}

abbrev pub HasFour : List String → Type 0
HasFour r = 4 ≤ length r

module _ {F : Type 0} (fields : Fields F) where
  -- The row that a record stands for.
  abbrev pub reading : List String → Option (Row F)
  reading (a ∷ b ∷ c ∷ d ∷ more) =
      all_four (fields.parse_bool a) (fields.atoi b) (fields.parse_float c) (fields.parse_float d)
  reading _ = none

  -- Record by record, the rows are what the records stand for.
  abbrev pub Reads : List (List String) → List (Row F) → Type 0
  Reads [] [] = Unit {0}
  Reads [] (x ∷ xs) = ⊥
  Reads (r ∷ rs) [] = ⊥
  Reads (r ∷ rs) (x ∷ xs) = (reading r ≡ some x) × Reads rs xs

  -- The first record that cannot be read.
  pub record IsFirstBad (records : List (List String)) (j : ℕ) : Type 0 where
    pub bad : List String
    pub there : get_elem? records j ≡ some bad
    pub unread : reading bad ≡ none
    pub before :
        (k : ℕ) (r : List String)
        → k < j
        → get_elem? records k ≡ some r
        → (x : Row F) × (reading r ≡ some x)

  parse_rows_cons :
      (i : ℕ) (r : List String) (rs : List (List String))
      → HasFour r
      → parse_rows fields i (r ∷ rs) ≡ row_then i (reading r) (parse_rows fields (i + 1) rs)
  unfolding parse_rows
  parse_rows_cons i [] rs h = absurd (omega arith)
  parse_rows_cons i (a ∷ []) rs h = absurd (omega arith)
  parse_rows_cons i (a ∷ b ∷ []) rs h = absurd (omega arith)
  parse_rows_cons i (a ∷ b ∷ c ∷ []) rs h = absurd (omega arith)
  parse_rows_cons i (a ∷ b ∷ c ∷ d ∷ more) rs h = refl

  abbrev Outcome : ℕ → List (List String) → Type 0
  Outcome i records =
      ((rows : List (Row F)) × (parse_rows fields i records ≡ parsed rows) × Reads records rows)
      ⊎ ((j : ℕ) × (parse_rows fields i records ≡ refused (bad_line (i + j + 1)))
          × IsFirstBad records j)

  after_row :
      (i : ℕ) (r : List String) (rs : List (List String)) (x : Row F)
      → HasFour r
      → reading r ≡ some x
      → Outcome (i + 1) rs
      → Outcome i (r ∷ rs)
  after_row i r rs x four e (inl (rows, p, reads)) =
      inl (x ∷ rows, parse_rows_cons i r rs four ∙ rw (e, p) refl, (e, reads))
  after_row i r rs x four e (inr (j, p, first)) = inr (
    suc j,
    parse_rows_cons i r rs four ∙ rw (e, p) (ap (λ n. refused (bad_line n)) (omega arith)),
    record { bad = first.bad; there = first.there; unread = first.unread; before = before },
  )
    where
      before :
          (k : ℕ) (y : List String)
          → k < suc j
          → get_elem? (r ∷ rs) k ≡ some y
          → (z : Row F) × (reading y ≡ some z)
      before zero y lt at = let same : r ≡ y = some-injective _ _ at in (x, rw (← same) e)
      before (suc k) y lt at = first.before k y (omega arith) at

  parse_rows_lem : (i : ℕ) (records : List (List String)) → All HasFour records → Outcome i records
  unfolding parse_rows
  parse_rows_lem i [] h = inl ([], refl, tt)
  parse_rows_lem i (r ∷ rs) (four, h) = elim (Option-cases (reading r)) [
    | inl e ↦ inr (
      0,
      parse_rows_cons i r rs four ∙ rw e (ap (λ n. refused (bad_line n)) (omega arith)),
      record { bad = r; there = refl; unread = e; before = λ k y lt at. absurd (omega arith) },
    )
    | inr (x, e) ↦ after_row i r rs x four e (parse_rows_lem (i + 1) rs h)
  ]

  -- Under the header, records of four fields or more parse without an index out of range: into one row for
  -- each, which holds what its fields read as, or into the error of the first record with a field that
  -- cannot be read, with its line. Under another header they are refused.
  pub parse_lem :
      (first : List String) (records : List (List String))
      → All HasFour records
      → (str_eq (join first) header ≡ true
          → ((rows : List (Row F)) × (parse fields (first ∷ records) ≡ parsed rows)
              × Reads records rows)
            ⊎ ((j : ℕ) × (parse fields (first ∷ records) ≡ refused (bad_line (j + 2)))
                × IsFirstBad records j))
        × (str_eq (join first) header ≡ false → parse fields (first ∷ records) ≡ refused bad_header)
  unfolding parse
  parse_lem first records four = (
    λ same. elim (parse_rows_lem 1 records four) [
      | inl (rows, p, reads) ↦ inl (rows, rw same p, reads)
      | inr (j, p, bad) ↦ inr (j, rw same (p ∙ ap (λ n. refused (bad_line n)) (omega arith)), bad)
    ],
    λ other. rw other refl,
  )
