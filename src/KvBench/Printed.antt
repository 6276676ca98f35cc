-- ===== src/KvBench/Printed.antt =====
-- What kvbench prints: whole tables, up to the first cell that fails.
use Prim.Native.String.{String}
use kvflow.Prelude.{
  ◌≤◌, ℕ, ◌<◌, ◌≡◌, refl, none, some, List, [], ◌∷◌, ◌++◌, Result, Error, ok, err, Matched,
  Result-cases, inl, inr, arith,
}
use kvflow.Int.{pos}
use kvflow.Float64.{Float64, max_exact}
use kvflow.Simulator.Workload.Flaps.{flapping_lem}
use kvflow.Simulator.Workload.Prefixes.{mixed_prefixes_lem}
use kvflow.KvBench.Setup.{
  Rand, Verbs, Workload, Policy, Workloads, scenario, startup_scenario, fast_bandwidth,
  slow_bandwidth, changing_workloads, all_workloads, new_workloads, policies,
}
use kvflow.KvBench.Tables.{
  Failure, Filled, filled, failed, before, above, Exit, printed, cells, body, headings, table,
  own_name, both_names, regret_cell, adaptation_cells, error_cell, tables, main, then_tables,
}

module _ {F : Type 0} (cell : Policy F → Workload F → Result (List String)) where
  -- The cells of a policy: those of each workload, in order.
  abbrev pub IsCells : Policy F → List (Workload F) → List String → Type 0
  IsCells p [] xs = xs ≡ []
  IsCells p (w ∷ ws) xs =
      (own rest : List String) × (cell p w ≡ ok own) × (xs ≡ own ++ rest) × IsCells p ws rest

  abbrev pub IsRow : List (Workload F) → Policy F → List String → Type 0
  IsRow ws p row = (xs : List String) × (row ≡ p.name ∷ xs) × IsCells p ws xs

  -- The first cell of a row that fails, and the first of a table.
  pub data RowFails (p : Policy F) : List (Workload F) → Failure → Type 0 where
    here :
        {w : Workload F} {ws : List (Workload F)} {e : Error} {f : Failure}
        → cell p w ≡ err e
        → f ≡ record { policy = p.name; workload = w.name; error = e }
        → RowFails p (w ∷ ws) f
    after :
        {w : Workload F} {ws : List (Workload F)} {xs : List String} {f : Failure}
        → cell p w ≡ ok xs
        → RowFails p ws f
        → RowFails p (w ∷ ws) f

  pub data Fails (ws : List (Workload F)) : List (Policy F) → Failure → Type 0 where
    at_row :
        {p : Policy F} {ps : List (Policy F)} {f : Failure} → RowFails p ws f → Fails ws (p ∷ ps) f
    below_row :
        {p : Policy F} {ps : List (Policy F)} {f : Failure} (xs : List String)
        → IsCells p ws xs
        → Fails ws ps f
        → Fails ws (p ∷ ps) f

  RowEnds : Policy F → List (Workload F) → Filled (List String) → Type 0
  RowEnds p ws (filled xs) = IsCells p ws xs
  RowEnds p ws (failed f) = RowFails p ws f

  cells-RowEnds : (p : Policy F) (ws : List (Workload F)) → RowEnds p ws (cells cell p ws)
  unfolding cells RowEnds
  cells-RowEnds p [] = refl
  cells-RowEnds p (w ∷ ws) = elim (Result-cases (cell p w)) [
    | inr (e, q) ↦ rw (q, cells) (here q refl)
    | inl (own, q) ↦ rw (q, cells) (go (cells cell p ws) (cells-RowEnds p ws) q)
  ]
    where
      go :
          {own : List String} (rest : Filled (List String))
          → RowEnds p ws rest
          → cell p w ≡ ok own
          → RowEnds p (w ∷ ws) (before own rest)
      go {own} (filled xs) h q = (own, xs, q, refl, h)
      go (failed f) h q = after q h

  -- How the rows of a table end: one for each policy, or at the first cell that fails.
  abbrev pub BodyEnds : List (Policy F) → List (Workload F) → Filled (List (List String)) → Type 0
  BodyEnds ps ws (filled rows) = Matched (IsRow ws) ps rows
  BodyEnds ps ws (failed f) = Fails ws ps f

  body-BodyEnds : (ps : List (Policy F)) (ws : List (Workload F)) → BodyEnds ps ws (body cell ps ws)
  unfolding body RowEnds
  body-BodyEnds [] ws = tt
  body-BodyEnds (p ∷ ps) ws =
      go (cells cell p ws) (body cell ps ws) (cells-RowEnds p ws) (body-BodyEnds ps ws)
    where
      go :
          (row : Filled (List String)) (rest : Filled (List (List String)))
          → RowEnds p ws row
          → BodyEnds ps ws rest
          → BodyEnds (p ∷ ps) ws (above p.name row rest)
      go (failed f) rest h k = at_row h
      go (filled xs) (failed f) h k = below_row xs h k
      go (filled xs) (filled rows) h k = ((xs, refl, h), k)

-- A whole table: its heading, and a row for each policy, in order.
abbrev pub IsTable :
    {F : Type 0}
    → (Workload F → List String)
    → (Policy F → Workload F → Result (List String))
    → List (Policy F)
    → List (Workload F)
    → List (List String)
    → Type 0
IsTable names cell ps ws rows =
    (rest : List (List String)) × (rows ≡ ("policy" ∷ headings names ws) ∷ rest)
    × Matched (IsRow cell ws) ps rest

TableEnds :
    {F : Type 0}
    → (Workload F → List String)
    → (Policy F → Workload F → Result (List String))
    → List (Policy F)
    → List (Workload F)
    → Filled (List (List String))
    → Type 0
TableEnds names cell ps ws (filled rows) = IsTable names cell ps ws rows
TableEnds names cell ps ws (failed f) = Fails cell ws ps f

table-TableEnds :
    {F : Type 0} (names : Workload F → List String)
    (cell : Policy F → Workload F → Result (List String)) (ps : List (Policy F))
    (ws : List (Workload F))
    → TableEnds names cell ps ws (table names cell ps ws)
unfolding table TableEnds
table-TableEnds names cell ps ws = go (body cell ps ws) (body-BodyEnds cell ps ws)
  where
    go :
        (b : Filled (List (List String)))
        → BodyEnds cell ps ws b
        → TableEnds names cell ps ws (above "policy" (filled (headings names ws)) b)
    go (filled rows) h = (rows, refl, h)
    go (failed f) h = h

module _ {F : Type 0} ⦃fl : Float64 F⦄ (verbs : Verbs F) (ps : List (Policy F))
    (ws : Workloads F) where
  -- All three tables, or those before the first one that fails.
  abbrev pub IsPrinted : Exit → Type 0
  IsPrinted (printed (a ∷ b ∷ c ∷ []) none) =
      IsTable own_name (regret_cell verbs) ps ws.every a
      × IsTable both_names (adaptation_cells verbs) ps ws.changing b
      × IsTable own_name (error_cell verbs) ps ws.every c
  IsPrinted (printed [] (some f)) = Fails (regret_cell verbs) ws.every ps f
  IsPrinted (printed (a ∷ []) (some f)) =
      IsTable own_name (regret_cell verbs) ps ws.every a
      × Fails (adaptation_cells verbs) ws.changing ps f
  IsPrinted (printed (a ∷ b ∷ []) (some f)) =
      IsTable own_name (regret_cell verbs) ps ws.every a
      × IsTable both_names (adaptation_cells verbs) ps ws.changing b
      × Fails (error_cell verbs) ws.every ps f
  IsPrinted _ = ⊥

  tables-IsPrinted : IsPrinted (tables verbs ps ws)
  unfolding tables TableEnds
  tables-IsPrinted =
      go (table own_name (regret_cell verbs) ps ws.every)
        (table both_names (adaptation_cells verbs) ps ws.changing)
        (table own_name (error_cell verbs) ps ws.every)
        (table-TableEnds own_name (regret_cell verbs) ps ws.every)
        (table-TableEnds both_names (adaptation_cells verbs) ps ws.changing)
        (table-TableEnds own_name (error_cell verbs) ps ws.every)
    where
      go :
          (a b c : Filled (List (List String)))
          → TableEnds own_name (regret_cell verbs) ps ws.every a
          → TableEnds both_names (adaptation_cells verbs) ps ws.changing b
          → TableEnds own_name (error_cell verbs) ps ws.every c
          → IsPrinted (then_tables a (then_tables b (then_tables c (printed [] none))))
      go (failed f) b c h k l = h
      go (filled x) (failed f) c h k l = (h, k)
      go (filled x) (filled y) (failed f) h k l = (h, k, l)
      go (filled x) (filled y) (filled z) h k l = (h, k, l)

module _ {F R : Type 0} ⦃fl : Float64 F⦄ (rng : Rand F R)
    (in_bound : (r : R) (m : ℕ) → 0 < m → (rng.int_n r m).0 < m) where
  -- The workloads are made: the periods and the sizes are fine.
  new_workloads-ok :
      (n : ℕ) → n ≤ max_exact → (ws : Workloads F) × (new_workloads rng n ≡ ok (some ws))
  unfolding new_workloads
  new_workloads-ok n few =
      let (flapped, e, _, _) =
        (flapping_lem {F = F} rng.int_n in_bound (rng.new 1) n (pos 150) (pos 250)
            (scenario fast_bandwidth) (scenario slow_bandwidth)).1
          (omega arith) (omega arith) (omega arith) in
      let (mixed, m, _, _) =
        (mixed_prefixes_lem {F = F} rng.int_n in_bound (rng.new 1) n startup_scenario
            (pos 2_000 ∷ pos 50_000 ∷ [])).1
          (omega arith) in
      (
        record { changing = changing_workloads n flapped; every = all_workloads n flapped mixed },
        rw (e, m) refl,
      )

  -- With generators whose draws are below their bound, kvbench gets to its tables. Either it prints all
  -- three, of mean regrets, of adaptation times and of transfer errors, each with a heading and a row for
  -- each policy in order, which has the cells of each workload in order; or it prints those before the
  -- first one with a cell that fails, and reports the first such cell, with its policy, its workload and
  -- its error.
  pub main-IsPrinted :
      (verbs : Verbs F)
      → (ws : Workloads F) × (new_workloads rng 2_000 ≡ ok (some ws))
        × IsPrinted verbs (policies rng verbs) ws (main verbs rng)
  unfolding main
  main-IsPrinted verbs =
      let (ws, e) = new_workloads-ok 2_000 (omega arith) in
      (ws, e, rw (e, main) (tables-IsPrinted verbs (policies rng verbs) ws))
