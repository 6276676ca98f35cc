-- ===== src/KvControlRuns.antt =====
-- Runs of kvcontrol on whole numbers, whose division rounds up so that its first belief is positive.
use Prim.Native.String.{String}
use kvflow.Prelude.{
  ℕ, zero, suc, ◌+◌, ◌-◌, ◌/◌, ◌≡◌, ◌≢◌, refl, true, false, List, All, length, if◌then◌else◌, arith,
}
use kvflow.Int.{ℤ, pos, ltb_ℤ, negsuc}
use kvflow.Float64.{Float64}
use kvflow.Whole.{whole, whole-IsIeee}
use kvflow.Scheduler.{wait}
use kvflow.Simulator.Workload.{stable}
use kvflow.Learner.Ewma.{new_ewma, observe_ewma}
use kvflow.Learner.LastSample.{last_sample}
use kvflow.KvReplay.{AnyLearner, ewma_learner, any_learner}
use kvflow.Controller.{
  CallError, canceled, Wait, started, cut_off, Reply, replied, failed, cut, call, run,
}
use kvflow.Controller.Steps.{Counted}
use kvflow.Controller.Report.{Printer}
use kvflow.Controller.Report.Cells.{AllRows}
use kvflow.KvControl.{
  Flags, World, fatal, run_failed, config, scenario, main, panicked, new_learner, start_run, finish,
}
use kvflow.KvControl.Writing.{ending, main_writes}
use kvflow.KvControl.Waiting.{run-ne-wait}
use kvflow.LiveRuns.{live, flaky, settings, hopeful}

abbrev div_up : ℤ → ℤ → ℤ
div_up (pos a) (pos b) = pos ((a + b - 1) / b)
div_up a b = pos 0

abbrev pub upward : Float64 ℤ
upward = record whole { div = div_up }

abbrev marks : Printer ℤ
marks = record {
  six_places = λ x. if ltb_ℤ (pos 0) x then "+" else "0";
  decimal = λ x. if ltb_ℤ (pos 0) x then "+" else "0";
}

abbrev flags : ℤ → Flags ℤ
flags duration = record {
  worker = "127.0.0.1:50051";
  peer = "10.0.0.5:9000";
  kind = "ewma";
  alpha = pos 1;
  probe = pos 10;
  timeout = pos 10_000_000_000;
  interval = pos 100_000_000;
  duration = duration;
  bytes = pos 1;
  recompute = pos 50_000_000;
}

abbrev interrupted : CallError
interrupted = record { code = canceled; text = "context canceled" }

-- The wait of the request after the first one, and the call of the second, as Ctrl-C finds them.
abbrev waits : Wait → ℕ → ℤ → Wait
waits later zero at = started at
waits later (suc i) at = later

abbrev calls : ℕ → String → ℤ → ℤ → Reply ℤ
calls zero peer bytes timeout = replied (pos 1)
calls (suc i) peer bytes timeout = failed interrupted true

-- `errors.Is` finds no context.Canceled in a gRPC status.
abbrev world : Wait → World ℤ
world later = record {
  has_client = λ addr. true;
  can_write = true;
  is_canceled = λ e. false;
  env = record { wait_until = waits later; transfer_call = calls };
}

abbrev first : AnyLearner ℤ
first = ewma_learner (record { alpha = pos 1; seconds_per_byte = pos 1 })

main_writes_example :
    let ss = stable {F = ℤ} 3 (scenario ⦃fl = upward⦄ (pos 1) (pos 50_000_000)) in
    let (rs, e) =
      run ⦃fl = upward⦄
        (any_learner ⦃fl = upward⦄)
        (world cut_off).env
        (config (flags (pos 300_000_000)))
        first
        ss in
    Counted ss rs e
    × ((cells : List (List String)) × AllRows ⦃fl = upward⦄ marks
          (world cut_off).env
          (config (flags (pos 300_000_000)))
          0
          ss
          rs
          cells
        × (main ⦃fl = upward⦄ marks (world cut_off) (flags (pos 300_000_000))
            ≡ ending (world cut_off).is_canceled cells (length rs) 3 e))
unfolding new_learner new_ewma live
main_writes_example =
    main_writes ⦃fl = upward⦄ marks (world cut_off) (flags (pos 300_000_000)) first 3 refl refl refl
      refl refl refl

-- Interrupted in the call of a request, `main` writes no row of those before it.
interrupted_call :
    main ⦃fl = upward⦄ marks (world (started (pos 7))) (flags (pos 300_000_000))
    ≡ fatal (run_failed (cut (call interrupted)))
unfolding main new_learner new_ewma observe_ewma scenario start_run finish live
interrupted_call = refl

-- A duration below 0 panics.
negative_duration : main ⦃fl = upward⦄ marks (world cut_off) (flags (negsuc 999_999_999)) ≡ panicked
unfolding main new_learner new_ewma start_run live
negative_duration = refl

run-ne-wait_example :
    All
      (λ r. r.action ≢ wait)
      (run last_sample flaky settings hopeful (stable 4 (scenario (pos 5) (pos 1_000_000_000)))).0
unfolding live
run-ne-wait_example =
    run-ne-wait whole-IsIeee last_sample (pos 5) (pos 1_000_000_000) 1_000_000_000 refl
      (omega arith) flaky settings hopeful 4
