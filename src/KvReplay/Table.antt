-- ===== src/KvReplay/Table.antt =====
-- cmd/kvreplay/main.go: the table that `write` prints and `main`, which takes the rows that the parser of
-- the CSV gives. A line of the table is its fields, whose commas are no part of them.
use Prim.Native.String.{String, ◌++◌ as str_append}
use native.Mathlib.Nat.{add-zero, zero-add}
use mathlib.Core.Option.{some-injective}
use kvflow.Prelude.{
  ℕ, zero, suc, ◌+◌, ◌≡◌, refl, ap, ◌∙◌, sym, Option, none, some, List, [], ◌∷◌, ◌++◌, Error, ok,
  err, map, take, length, get_elem?, arith,
}
use kvflow.Int.{ℤ, pos}
use kvflow.Float64.{Float64}
use kvflow.XferCsv.{Row, Parsed, parsed, refused, panicked}
use kvflow.KvReplay.{AnyLearner, any_learner, alphas, new_learners, replay, prediction}
use kvflow.KvReplay.Columns.{after, replay_lem}

-- The verbs %d, %.0f, %.1f and %.6f of fmt.
pub record Verbs (F : Type 0) : Type 0 where
  pub decimal : ℤ → String
  pub no_places : F → String
  pub one_place : F → String
  pub six_places : F → String

-- How `main` ends: by `log.Fatal`, in an index out of range, or with the lines it printed.
pub data Exit : Type 0 where
  fatal : Error → Exit
  out_of_range : Exit
  printed : List (List String) → Exit

module _ {F : Type 0} ⦃fl : Float64 F⦄ (verbs : Verbs F) where
  -- The names of the learners of one kind.
  abbrev pub names_of : String → List String
  names_of kind = map (λ alpha. str_append kind (str_append "_" (verbs.one_place alpha))) alphas

  abbrev pub names : List String
  names = names_of "line" ++ names_of "ewma"

  abbrev pub heading : List String
  heading = "index" ∷ "bytes" ∷ "actual" ∷ names

  abbrev pub line : ℕ → Row F → List F → List String
  line i r predictions =
      verbs.decimal (pos (i + 1))
      ∷ verbs.no_places r.bytes
      ∷ verbs.six_places r.seconds
      ∷ map verbs.six_places predictions

  -- The loop of `write` from index `i`; `none` is an index of `predictions` out of range.
  unfoldable pub write_rows : ℕ → List (Row F) → List (List F) → Option (List (List String))
  write_rows i [] predictions = some []
  write_rows i (r ∷ rs) predictions = elim (get_elem? predictions i) [
    | none ↦ none
    | some ps ↦ elim (write_rows (i + 1) rs predictions) [
      | none ↦ none
      | some lines ↦ some (line i r ps ∷ lines)
    ]
  ]

  unfoldable pub write : List (Row F) → List (List F) → Exit
  write rows predictions = elim (write_rows 0 rows predictions) [
    | none ↦ out_of_range
    | some lines ↦ printed (heading ∷ lines)
  ]

  -- `main`, given what `xfercsv.Parse` returns.
  unfoldable pub main : Parsed F → Exit
  main (refused e) = fatal e
  main panicked = out_of_range
  main (parsed rows) = elim new_learners [
    | err e ↦ fatal e
    | ok ls ↦ write rows (replay any_learner rows ls)
  ]

  write_rows-cons :
      (i : ℕ) (r : Row F) (rs : List (Row F)) (predictions : List (List F)) {ps : List F}
      {lines : List (List String)}
      → get_elem? predictions i ≡ some ps
      → write_rows (i + 1) rs predictions ≡ some lines
      → write_rows i (r ∷ rs) predictions ≡ some (line i r ps ∷ lines)
  unfolding write_rows
  write_rows-cons i r rs predictions here e = rw (here, e, write_rows) refl

  -- A list of lines that has the line of each row from the second has it from the first.
  lines-cons :
      (i : ℕ) (x : Row F) (rs : List (Row F)) (predictions : List (List F)) (ps : List F)
      (lines : List (List String))
      → get_elem? predictions (i + 0) ≡ some ps
      → ((k : ℕ) (r : Row F) (qs : List F)
          → get_elem? rs k ≡ some r
          → get_elem? predictions (i + 1 + k) ≡ some qs
          → get_elem? lines k ≡ some (line (i + 1 + k) r qs))
      → (k : ℕ) (r : Row F) (qs : List F) → get_elem? (x ∷ rs) k ≡ some r
      → get_elem? predictions (i + k) ≡ some qs
      → get_elem? (line i x ps ∷ lines) k ≡ some (line (i + k) r qs)
  lines-cons i x rs predictions ps lines here all zero r qs f g =
      let row : x ≡ r = some-injective _ _ f in
      let same : ps ≡ qs = some-injective _ _ (sym here ∙ g) in rw (row, same, add-zero i) refl
  lines-cons i x rs predictions ps lines here all (suc k) r qs f g =
      let next : i + 1 + k ≡ i + suc k = omega arith in rw next at (all k r qs f (rw next g))

  write_rows_lem :
      (rs : List (Row F)) (i : ℕ) (predictions : List (List F))
      → ((k : ℕ) (r : Row F)
          → get_elem? rs k ≡ some r
          → (ps : List F) × (get_elem? predictions (i + k) ≡ some ps))
      → (lines : List (List String)) × (write_rows i rs predictions ≡ some lines)
        × (length lines ≡ length rs)
        × ((k : ℕ) (r : Row F) (ps : List F)
            → get_elem? rs k ≡ some r
            → get_elem? predictions (i + k) ≡ some ps
            → get_elem? lines k ≡ some (line (i + k) r ps))
  unfolding write_rows
  write_rows_lem [] i predictions found = ([], refl, refl, λ k r ps e f. cc)
  write_rows_lem (x ∷ rs) i predictions found =
      let (ps, here) = found 0 x refl in
      let next : (k : ℕ) → i + 1 + k ≡ i + suc k = λ k. omega arith in
      let (lines, e, n, all) =
        write_rows_lem rs (i + 1) predictions (λ k r f. rw (next k) (found (suc k) r f)) in
      (
        line i x ps ∷ lines,
        write_rows-cons i x rs predictions (rw (add-zero i) at here) e,
        ap suc n,
        lines-cons i x rs predictions ps lines here all,
      )

  -- Where the learners are made, `main` prints the heading, with a column for each of them, and a line for
  -- each row, in order: its index from 1, its size, its seconds, and what each learner predicts of it
  -- after the rows before, and only those.
  pub main_lem :
      (rows : List (Row F)) (ls : List (AnyLearner F))
      → new_learners ≡ ok ls
      → (lines : List (List String)) × (main (parsed rows) ≡ printed (heading ∷ lines))
        × (length lines ≡ length rows)
        × ((i : ℕ) (r : Row F)
            → get_elem? rows i ≡ some r
            → get_elem? lines i
              ≡ some (
                  line i r
                    (map (λ l. prediction any_learner r (after any_learner l (take i rows))) ls)))
  unfolding main write
  main_lem rows ls made =
      let row_at : (i : ℕ) (r : Row F)
          → get_elem? rows i ≡ some r
          → get_elem? (replay any_learner rows ls) (0 + i)
            ≡ some (map (λ l. prediction any_learner r (after any_learner l (take i rows))) ls) =
        λ i r f. rw (zero-add i) (replay_lem any_learner rows ls i r f) in
      let (lines, e, n, all) =
        write_rows_lem rows 0 (replay any_learner rows ls) (λ k r f. (_, row_at k r f)) in
      (
        lines,
        rw (made, main, e, write) refl,
        n,
        λ i r f. rw (zero-add i) at (all i r _ f (row_at i r f)),
      )
