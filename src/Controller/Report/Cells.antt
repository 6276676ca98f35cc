-- ===== src/Controller/Report/Cells.antt =====
-- What a row says of the worker's answer to its request.
use kvflow.Controller.Steps.{start}
use Prim.Native.String.{String}
use kvflow.Prelude.{
  [], ◌∷◌, some, ◌≡◌, length, inl, get_elem?, inr, ◌⊎◌, arith, refl, if◌then◌else◌, ◌+◌,
}
use kvflow.Float64.{Float64, nought}
use kvflow.Learner.{Learner}
use kvflow.Scheduler.{action_eq, transfer}
use kvflow.Simulator.{Scenario}
use kvflow.Controller.{
  Env, Config, RunResult, CallError, is_called, prefix_bytes, run_loop, replied, failed, Reply, ℕ,
  List, true, false,
}
use kvflow.Controller.Lessons.{IsReported, AllReported, run_loop_teaches}
use kvflow.Controller.Report.{Printer, actual_text, row, rows, headings, write_csv}

module _ {F : Type 0} ⦃fl : Float64 F⦄ (printer : Printer F) (env : Env F) (cfg : Config) where
  -- The last two of the eight cells of a row: the measured time and no error; no time and the text
  -- of an error; or, without a call, no error, and a time of 0 if the action was a transfer.
  abbrev pub Cells : Scenario F → RunResult F → String → String → Reply F → Type 0
  Cells s r actual error reply =
      ((t : F) × (reply ≡ replied t)
        × (is_called s r.action ≡ true)
        × (actual ≡ printer.six_places t)
        × (error ≡ ""))
      ⊎ (((e : CallError) × (reply ≡ failed e false)
            × (is_called s r.action ≡ true)
            × (actual ≡ "")
            × (error ≡ e.text))
          ⊎ ((is_called s r.action ≡ false)
              × (actual ≡ (if action_eq r.action transfer then printer.six_places nought else ""))
              × (error ≡ "")))

  abbrev pub IsRow : ℕ → Scenario F → RunResult F → List String → Type 0
  IsRow i s r cells =
      (actual : String) × (error : String) × (length cells ≡ 8)
      × (get_elem? cells 6 ≡ some actual)
      × (get_elem? cells 7 ≡ some error)
      × Cells s r actual error (env.transfer_call i cfg.peer_addr (prefix_bytes s) cfg.timeout)

  abbrev pub AllRows : ℕ → List (Scenario F) → List (RunResult F) → List (List String) → Type 0
  AllRows i (s ∷ ss) (r ∷ rs) (cells ∷ rest) = IsRow i s r cells × AllRows (i + 1) ss rs rest
  AllRows i ss [] [] = Unit
  AllRows i _ _ _ = ⊥

  row-IsRow :
      (i : ℕ) (s : Scenario F) (r : RunResult F)
      → IsReported env cfg i s r
      → IsRow i s r (row printer i s r)
  unfolding row actual_text
  row-IsRow i s r (inl (c, n, z)) = (
    actual_text printer r,
    "",
    refl,
    refl,
    rw n refl,
    inr (inr (c, rw (n, z, actual_text) refl, refl)),
  )
  row-IsRow i s r (inr (inl (e, c, reply, n, z))) =
      ("", e.text, refl, rw (n, actual_text) refl, rw n refl, inr (inl (e, reply, c, refl, refl)))
  row-IsRow i s r (inr (inr (c, reply, n))) =
      let t : action_eq r.action transfer ≡ true = ground arith in
      (
        printer.six_places r.seconds_taken,
        "",
        refl,
        rw (n, t, actual_text) refl,
        rw n refl,
        inl (r.seconds_taken, reply, c, refl, refl),
      )

  rows-AllRows :
      (i : ℕ) (ss : List (Scenario F)) (rs : List (RunResult F))
      → AllReported env cfg i rs ss
      → (cells : List (List String)) × (rows printer i ss rs ≡ some cells) × AllRows i ss rs cells
  unfolding rows
  rows-AllRows i [] [] h = ([], refl, tt)
  rows-AllRows i (s ∷ ss) [] h = ([], refl, tt)
  rows-AllRows i [] (r ∷ rs) h = absurd h
  rows-AllRows i (s ∷ ss) (r ∷ rs) (h, hs) =
      let (rest, e, all) = rows-AllRows (i + 1) ss rs hs in
      (row printer i s r ∷ rest, rw e, (row-IsRow i s r h, all))

  -- The results of a loop print without an index out of range: the headings, and for each result a
  -- row of eight cells. Its last two are the measured time and no error where the worker replied, no
  -- time and the error's text where the call failed, and no error where no call was made; then the
  -- time is empty, except that a transfer of an empty prefix prints a time of 0.
  pub write_csv_lem :
      {L : Type 0} (learner : Learner F L) (l : L) (ss : List (Scenario F))
      → let rs = (run_loop learner env cfg 0 (start l) ss).results in
        (cells : List (List String)) × (write_csv printer ss rs ≡ some (headings ∷ cells))
        × AllRows 0 ss rs cells
  unfolding write_csv
  write_csv_lem learner l ss =
      let rs = (run_loop learner env cfg 0 (start l) ss).results in
      let (cells, e, all) = rows-AllRows 0 ss rs (run_loop_teaches learner env cfg l ss).0 in
      (cells, rw (e, write_csv), all)
