-- ===== src/KvLoadSim/Table.antt =====
-- cmd/kvloadsim/main.go: the table of `write`, and `main`, which takes the rows that the parser of the CSV
-- gives. How a number is printed is left out: a row of the table is the numbers that are printed.
use Prim.Native.String.{String}
use kvflow.Prelude.{
  not, ◌&&◌, ◌||◌, Bool, ℕ, ◌+◌, Option, none, some, List, [], ◌∷◌, Error, ok, err, if◌then◌else◌,
  length, get_elem?,
}
use kvflow.Int.{ℤ, pos, negsuc, pos_part, ◌-ℤ◌}
use kvflow.Float64.{Float64, ◌⊕◌, ◌⊖◌, ◌⊗◌, ◌⊘◌, nought}
use kvflow.XferCsv.{Parsed, parsed, refused, panicked}
use kvflow.NetTrace.{Trace, from_rows, duration}
use kvflow.KvLoadSim.{is_bad_size, load, starts, times}
use kvflow.KvLoadSim.Policies.{any_learner, Named, name, Stats, half, new_policies}

-- The flags.
pub record Flags (F : Type 0) : Type 0 where
  pub tokens : ℤ
  pub chunk : ℤ
  pub bytes_per_token : F
  pub prefill : F
  pub interval : F
  pub probe : ℤ

-- The columns of a line of the table.
pub record Columns (F : Type 0) : Type 0 where
  pub name : String
  pub mean : F
  pub p50 : F
  pub p99 : F
  pub max : F
  pub over_oracle : F
  pub over_twice : ℕ

-- How `main` ends: by `log.Fatal`, of its flags or an error; in an index out of range; still in a loop; or
-- with the number of requests and the lines of the table.
pub data Exit (F : Type 0) : Type 0 where
  bad_flags out_of_range unfinished : Exit F
  fatal : Error → Exit F
  printed : ℕ → List (Columns F) → Exit F

-- `xs[i]`
abbrev pub at_index : {A : Type 0} → List A → ℤ → Option A
at_index xs (pos i) = get_elem? xs i
at_index xs (negsuc i) = none

-- The times of loads, all of which ended.
abbrev pub all_some : {A : Type 0} → List (Option A) → Option (List A)
all_some [] = some []
all_some (none ∷ rest) = none
all_some (some a ∷ rest) = elim (all_some rest) [ none ↦ none | some as_ ↦ some (a ∷ as_) ]

module _ {F : Type 0} ⦃fl : Float64 F⦄ where
  -- `cmp.Less`, by which slices.Sorted puts NaNs first.
  abbrev pub is_less : F → F → Bool
  is_less x y = fl.lt x y || (fl.is_nan x && not (fl.is_nan y))

  unfoldable pub insert : F → List F → List F
  insert x [] = x ∷ []
  insert x (y ∷ ys) = let rest = insert x ys in if is_less x y then x ∷ y ∷ ys else y ∷ rest

  -- `slices.Sorted(slices.Values(xs))`, by insertion.
  unfoldable pub sorted : List F → List F
  unfolding insert
  sorted [] = []
  sorted (x ∷ xs) = insert x (sorted xs)

  module _ (stats : Stats F) where
    -- `quantile`
    unfoldable pub quantile : List F → F → Option F
    quantile xs q = at_index xs (fl.to_int (stats.ceil (q ⊗ fl.of_int (pos (length xs)))) -ℤ pos 1)

    -- `sumOf`, from a sum so far.
    unfoldable pub sum_from : F → List F → F
    sum_from s [] = s
    sum_from s (x ∷ xs) = sum_from (s ⊕ x) xs

    -- The variables of the loop over the times of a policy.
    abbrev pub Sums : Type 0
    Sums = F × F × ℕ

    -- The loop itself; `none` is an index of `oracle` out of range.
    unfoldable pub add_times : Sums → List F → List F → Option Sums
    add_times sums [] oracle_times = some sums
    add_times sums (s ∷ more) [] = none
    add_times (sum, excess, over) (s ∷ more) (o ∷ oracle_times) =
        add_times
          (sum ⊕ s, excess ⊕ (s ⊖ o), if fl.lt (fl.of_int (pos 2) ⊗ o) s then over + 1 else over)
          more oracle_times

    -- The line of a policy with these times.
    unfoldable pub line_of : List F → String → List F → Option (Columns F)
    unfolding quantile add_times sum_from
    line_of oracle_times name ts =
        let xs = sorted ts in
        elim (add_times (nought, nought, 0) ts oracle_times) [
          | none ↦ none
          | some (sum, excess, over) ↦ elim (quantile xs half) [
            | none ↦ none
            | some p50 ↦ elim (quantile xs (fl.of_int (pos 99) ⊘ fl.of_int (pos 100))) [
              | none ↦ none
              | some p99 ↦ elim (at_index xs (pos (length xs) -ℤ pos 1)) [
                | none ↦ none
                | some max ↦ some (record {
                  name = name;
                  mean = sum ⊘ fl.of_int (pos (length ts));
                  p50 = p50;
                  p99 = p99;
                  max = max;
                  over_oracle = fl.of_int (pos 100) ⊗ excess ⊘ sum_from nought oracle_times;
                  over_twice = over;
                })
              ]
            ]
          ]
        ]

    -- The loop of `write` over the policies, each with its times.
    unfoldable pub lines_of : List F → List (Named F × List F) → Option (List (Columns F))
    lines_of oracle_times [] = some []
    lines_of oracle_times ((p, ts) ∷ more) = elim (line_of oracle_times (name p) ts) [
      | none ↦ none
      | some l ↦ elim (lines_of oracle_times more) [ none ↦ none | some ls ↦ some (l ∷ ls) ]
    ]

    -- `times[0]` is the oracle's.
    unfoldable pub write : List (Named F × List F) → Option (List (Columns F))
    write [] = none
    write ((p, ts) ∷ more) = lines_of ts ((p, ts) ∷ more)

    -- `times` for every policy; `none` where `Cake` has not ended in so many rounds.
    unfoldable pub all_times :
        ℕ → Trace F → Flags F → List F → List (Named F) → Option (List (Named F × List F))
    all_times fuel tr flags at [] = some []
    all_times fuel tr flags at (p ∷ ps) =
        let ld =
          load (pos_part flags.tokens) (pos_part flags.chunk) flags.bytes_per_token flags.prefill in
        elim (all_some (times any_learner tr ld fuel p.policy at)) [
          | none ↦ none
          | some ts ↦ elim (all_times fuel tr flags at ps) [
            | none ↦ none
            | some rest ↦ some ((p, ts) ∷ rest)
          ]
        ]

    -- From the trace on.
    unfoldable pub simulate : ℕ → Flags F → Trace F → Exit F
    simulate fuel flags tr = elim (new_policies stats flags.probe) [
      | err e ↦ fatal e
      | ok ps ↦ elim (starts fuel nought (duration tr) flags.interval) [
        | none ↦ unfinished
        | some at ↦ elim (all_times fuel tr flags at ps) [
          | none ↦ unfinished
          | some all ↦ elim (write all) [
            | none ↦ out_of_range
            | some lines ↦ printed (length at) lines
          ]
        ]
      ]
    ]

    -- `main`, given what `xfercsv.Parse` returns, with so many rounds for each of its loops without a
    -- bound.
    unfoldable pub main : ℕ → Flags F → Parsed F → Exit F
    main fuel flags input = if is_bad_size flags.tokens flags.chunk then bad_flags else elim input [
      | refused e ↦ fatal e
      | panicked ↦ out_of_range
      | parsed rows ↦ elim (from_rows rows) [ err e ↦ fatal e | ok tr ↦ simulate fuel flags tr ]
    ]
