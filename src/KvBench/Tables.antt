-- ===== src/KvBench/Tables.antt =====
-- cmd/kvbench/main.go: the three tables of `main`, cell by cell. A table whose cell fails is not printed.
use Prim.Native.String.{String, ◌++◌ as str_append}
use kvflow.Prelude.{Option, none, some, List, [], ◌∷◌, ◌++◌, Result, Error, ok, err, ◌>>=◌}
use kvflow.Float64.{Float64}
use kvflow.Scheduler.{transfer, recompute}
use kvflow.KvBench.{mean_regret_ms, mean_adaptation, mean_transfer_error_ms}
use kvflow.KvBench.Setup.{Rand, Verbs, Workload, Policy, Workloads, new_workloads, policies}

-- What `log.Fatalf` reports of a cell.
pub record Failure : Type 0 where
  pub policy : String
  pub workload : String
  pub error : Error

pub data Filled (A : Type 0) : Type 0 where
  filled : A → Filled A
  failed : Failure → Filled A

-- Cells before the rest of a row, and a row before the rest of a table.
abbrev pub before : List String → Filled (List String) → Filled (List String)
before xs (filled ys) = filled (xs ++ ys)
before xs (failed f) = failed f

abbrev pub above :
    String → Filled (List String) → Filled (List (List String)) → Filled (List (List String))
above name (failed f) rest = failed f
above name (filled xs) (failed f) = failed f
above name (filled xs) (filled rows) = filled ((name ∷ xs) ∷ rows)

-- How `main` ends: with an error before the tables, in a panic, or with tables and the failure that cut
-- them short.
pub data Exit : Type 0 where
  fatal : Error → Exit
  panicked : Exit
  printed : List (List (List String)) → Option Failure → Exit

-- A table that is complete comes before the later ones.
abbrev pub then_tables : Filled (List (List String)) → Exit → Exit
then_tables (filled rows) (printed more failure) = printed (rows ∷ more) failure
then_tables (filled rows) other = other
then_tables (failed f) rest = printed [] (some f)

module _ {F : Type 0} (cell : Policy F → Workload F → Result (List String)) where
  -- The inner loop, over the workloads.
  unfoldable pub cells : Policy F → List (Workload F) → Filled (List String)
  cells p [] = filled []
  cells p (w ∷ ws) = elim (cell p w) [
    | err e ↦ failed (record { policy = p.name; workload = w.name; error = e })
    | ok xs ↦ before xs (cells p ws)
  ]

  -- The outer loop, over the policies.
  unfoldable pub body : List (Policy F) → List (Workload F) → Filled (List (List String))
  unfolding cells
  body [] ws = filled []
  body (p ∷ ps) ws = above p.name (cells p ws) (body ps ws)

module _ {F : Type 0} where
  -- The heading of a table.
  unfoldable pub headings : (Workload F → List String) → List (Workload F) → List String
  headings names [] = []
  headings names (w ∷ ws) = names w ++ headings names ws

  unfoldable pub table :
      (Workload F → List String)
      → (Policy F → Workload F → Result (List String))
      → List (Policy F)
      → List (Workload F)
      → Filled (List (List String))
  unfolding headings body
  table names cell ps ws = above "policy" (filled (headings names ws)) (body cell ps ws)

  abbrev pub own_name : Workload F → List String
  own_name w = w.name ∷ []

  abbrev pub both_names : Workload F → List String
  both_names w = str_append w.name " ↓" ∷ str_append w.name " ↑" ∷ []

module _ {F : Type 0} ⦃fl : Float64 F⦄ (verbs : Verbs F) where
  -- A mean, or the text in its place.
  abbrev pub or_text : String → Option F → String
  or_text text none = text
  or_text text (some mean) = verbs.one_place mean

  unfoldable pub regret_cell : Policy F → Workload F → Result (List String)
  regret_cell p w = do mean ← mean_regret_ms p.run w.truths; ok (verbs.one_place mean ∷ [])

  unfoldable pub adaptation_cells : Policy F → Workload F → Result (List String)
  adaptation_cells p w = do
    down ← mean_adaptation p.run w.truths recompute
    up ← mean_adaptation p.run w.truths transfer
    ok (or_text "never" down ∷ or_text "never" up ∷ [])

  unfoldable pub error_cell : Policy F → Workload F → Result (List String)
  error_cell p w = do mean ← mean_transfer_error_ms p.run w.truths; ok (or_text "—" mean ∷ [])

  unfoldable pub tables : List (Policy F) → Workloads F → Exit
  unfolding table
  tables ps ws = then_tables (table own_name regret_cell ps ws.every) (
      then_tables (table both_names adaptation_cells ps ws.changing)
        (then_tables (table own_name error_cell ps ws.every) (printed [] none)))

  unfoldable pub main : {R : Type 0} → Rand F R → Exit
  main rng = elim (new_workloads rng 2_000) [
    | err e ↦ fatal e
    | ok none ↦ panicked
    | ok (some ws) ↦ tables (policies rng verbs) ws
  ]
