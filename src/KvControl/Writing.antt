-- ===== src/KvControl/Writing.antt =====
-- What a run of kvcontrol writes.
use mathlib.Core.Path.{subst}
use kvflow.Prelude.{
  ℕ, ◌≡◌, refl, ap, ◌∙◌, Bool, true, false, Option, none, some, List, [], ◌∷◌, ok, length,
  length-replicate, Option-cases, Bool-cases, if◌then◌else◌, inl, inr,
}
use Prim.Native.String.{String}
use text.Mathlib.Text.{◌==◌ as str_eq}
use kvflow.Int.{pos, ltb_ℤ}
use kvflow.Float64.{Float64}
use kvflow.Simulator.{Scenario}
use kvflow.Simulator.Workload.{stable}
use kvflow.KvReplay.{AnyLearner, any_learner}
use kvflow.Controller.{
  CallError, ended, call, Stop, bad_input, cut, Config, RunResult, config_error, run_loop, run,
  returned,
}
use kvflow.Controller.Steps.{start, Counted, returned-results, run-Counted}
use kvflow.Controller.Report.{Printer, headings, rows, write_csv}
use kvflow.Controller.Report.Cells.{AllRows, write_csv_lem}
use kvflow.KvControl.{
  Flags, World, Exit, fatal, wrote, run_failed, request_count, config, scenario, new_learner,
  finish, start_run, main,
}

-- How `main` ends once it is set up, from the error of the run: nil, bad input, the end of the context in a
-- wait, or the error of a call.
abbrev pub ending : (CallError → Bool) → List (List String) → ℕ → ℕ → Option Stop → Exit
ending is_canceled cells finished n none = wrote (headings ∷ cells) finished n
ending is_canceled cells finished n (some (bad_input e)) = fatal (run_failed (bad_input e))
ending is_canceled cells finished n (some (cut ended)) = wrote (headings ∷ cells) finished n
ending is_canceled cells finished n (some (cut (call e))) =
    if is_canceled e then wrote (headings ∷ cells) finished n else fatal (run_failed (cut (call e)))

module _ {F : Type 0} ⦃fl : Float64 F⦄ (printer : Printer F) (world : World F) where
  -- The rows of a run's results.
  abbrev pub Printed : Config → List (Scenario F) → List (RunResult F) → Type 0
  Printed cfg ss rs =
      (cells : List (List String)) × (write_csv printer ss rs ≡ some (headings ∷ cells))
      × AllRows printer world.env cfg 0 ss rs cells

  no_results-Printed : (cfg : Config) (ss : List (Scenario F)) → Printed cfg ss []
  unfolding write_csv rows
  no_results-Printed cfg [] = ([], refl, tt)
  no_results-Printed cfg (s ∷ ss) = ([], refl, tt)

  run-Printed :
      (cfg : Config) (l : AnyLearner F) (ss : List (Scenario F))
      → Printed cfg ss (run any_learner world.env cfg l ss).0
  unfolding run
  run-Printed cfg l ss = elim (Option-cases (config_error cfg)) [
    | inr (x, q) ↦ rw (q, run) (no_results-Printed cfg ss)
    | inl q ↦
        let loop = run_loop any_learner world.env cfg 0 (start l) ss in
        rw (q, run)
          (elim (returned-results loop {rs = (returned loop).0} refl) [
            | inl nothing ↦ rw nothing (no_results-Printed cfg ss)
            | inr same ↦
                subst (Printed cfg ss) same (write_csv_lem printer world.env cfg any_learner l ss)
          ])
  ]

  finish_lem :
      (ss : List (Scenario F)) (rs : List (RunResult F)) (e : Option Stop)
      (cells : List (List String))
      → write_csv printer ss rs ≡ some (headings ∷ cells)
      → world.can_write ≡ true
      → finish printer world ss (rs, e) ≡ ending world.is_canceled cells (length rs) (length ss) e
  unfolding finish
  finish_lem ss rs none cells printed writes = rw (printed, writes, finish) refl
  finish_lem ss rs (some (bad_input e)) cells printed writes = refl
  finish_lem ss rs (some (cut ended)) cells printed writes = rw (printed, writes, finish) refl
  finish_lem ss rs (some (cut (call e))) cells printed writes =
      elim (Bool-cases (world.is_canceled e)) [
        | inl q ↦ rw (q, printed, writes, finish) refl
        | inr q ↦ rw (q, finish) refl
      ]

  -- Where the flags name a peer and a known learner with a valid alpha, the interval is positive, the
  -- client can be made, the duration gives a number of requests and the output can be written: `main` ends
  -- with the headings and a row of cells for each result of the run, in order, if the run had no error, the
  -- context ended in a wait, or errors.Is finds context.Canceled in the error of a call; and otherwise it is
  -- fatal. The results are one for each request, or fewer if the run was cut short, or none after bad input.
  pub main_writes :
      (flags : Flags F) (l : AnyLearner F) (n : ℕ)
      → str_eq flags.peer "" ≡ false
      → ltb_ℤ (pos 0) flags.interval ≡ true
      → new_learner flags.kind flags.alpha ≡ some (ok l)
      → world.has_client flags.worker ≡ true
      → request_count flags.duration flags.interval ≡ some n
      → world.can_write ≡ true
      → let ss = stable {F = F} n (scenario flags.bytes flags.recompute) in
        let (rs, e) = run any_learner world.env (config flags) l ss in
        Counted ss rs e
        × ((cells : List (List String)) × AllRows printer world.env (config flags) 0 ss rs cells
            × (main printer world flags ≡ ending world.is_canceled cells (length rs) n e))
  unfolding main start_run finish
  main_writes flags l n named positive made client count writes =
      let ss = stable {F = F} n (scenario flags.bytes flags.recompute) in
      let (cells, printed, all) = run-Printed (config flags) l ss in
      let (rs, e) = run any_learner world.env (config flags) l ss in
      let run_ : main printer world flags ≡ finish printer world ss (rs, e) =
        rw (named, positive, made, client, start_run, count) refl in
      let number : length ss ≡ n = length-replicate n (scenario flags.bytes flags.recompute) in
      (
        (run-Counted any_learner world.env (config flags) l ss).0,
        (
          cells,
          all,
          run_
              ∙ finish_lem ss rs e cells printed writes
              ∙ ap (λ m. ending world.is_canceled cells (length rs) m e) number,
        ),
      )
