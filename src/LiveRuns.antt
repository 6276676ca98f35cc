-- ===== src/LiveRuns.antt =====
-- Runs of the learners and of the controller on whole numbers, and each of their theorems at an input
-- that meets its hypotheses.
use kvflow.Learner.Line.Startup.{new_line-startup}
use kvflow.CostModel.Bounds.{IsShort, IsDuration}
use kvflow.Float64.{◌≼◌, ◌⊗◌, second}
use kvflow.Controller.Lessons.{AllReported, lessons, run_loop_teaches}
use Prim.Native.String.{String}
use kvflow.Controller.Report.{Printer, write_csv, headings}
use kvflow.Controller.Report.Cells.{AllRows, write_csv_lem}
use kvflow.Int.{ltb_ℤ, ℤ, pos, ◌<ℤ◌, ◌≤ℤ◌}
use kvflow.Learner.{observe_all}
use kvflow.Controller.Steps.{Counted, Returned, start, run-Counted}
use kvflow.Controller.Backoff.{IsCall, run_backoff}
use kvflow.Scheduler.{Action, transfer, recompute}
use kvflow.Controller.{
  CallError, Env, Config, RunResult, run, run_loop, without_transfer, unavailable, started,
  best_without_transfer, pick_action, config_error, failed, prefix_bytes, plan, replied, predicted,
  after_call, take_turn, turn, returned,
}
use kvflow.Learner.Line.{Line, new_line, observe_line, startup_line}
use kvflow.Learner.LastSample.{observe_last_sample, LastSample, last_sample}
use kvflow.Simulator.{Scenario}
use kvflow.Prelude.{
  refl, [], ◌∷◌, zero, suc, List, ℕ, Option, ◌<◌, arith, none, ◌≡◌, if◌then◌else◌, some, ◌+◌, ◌==◌,
  false,
}
use kvflow.Whole.{whole, whole-IsIeee}
use kvflow.Simulator
use kvflow.Examples.{program}

unfoldable pub live : Unit {0}
unfolding program Simulator.ttft_of Simulator.estimate observe_last_sample without_transfer
    best_without_transfer pick_action config_error prefix_bytes plan predicted after_call take_turn
    turn run_loop returned run
live = tt

abbrev points : List (ℤ × ℤ)
points = (pos 2, pos 6) ∷ (pos 3, pos 6) ∷ []

abbrev new : Line ℤ
new = record {
  alpha = pos 1;
  weight = pos 0;
  mean_bytes = pos 0;
  mean_seconds = pos 0;
  bytes_var = pos 0;
  bytes_seconds_cov = pos 0;
  startup = pos 0;
  seconds_per_byte = pos 5;
}

new_line-startup_example :
    let learned = observe_all observe_line new points in
    (pos 0 ≼ learned.startup)
    × (IsShort (learned.startup ⊗ second) → IsDuration (startup_line learned))
unfolding new_line
new_line-startup_example = new_line-startup whole-IsIeee (pos 1) (pos 5) points {l = new} refl

-- Two tokens of a byte each: a transfer beats recomputing, and that beats waiting.
abbrev pub near : Scenario ℤ
near = record {
  source = record { queue = pos 5_000_000_000; prefill_tokens_per_sec = pos 1 };
  destination = record { queue = pos 1_000_000_000; prefill_tokens_per_sec = pos 1 };
  request = record { prefix_tokens = pos 2; suffix_tokens = pos 0 };
  kv_bytes_per_token = pos 1;
  bandwidth_bytes_per_sec = pos 1;
  transfer_startup = pos 0;
}

abbrev pub lost : CallError
lost = record { code = unavailable; text = "send to peer: broken pipe" }

-- The first call fails, the others take three seconds.
abbrev pub flaky : Env ℤ
flaky = record {
  wait_until = λ i t. started t;
  transfer_call = λ i peer bytes timeout. if i == 0 then failed lost false else replied (pos 3);
}

abbrev pub settings : Config
settings = record {
  peer_addr = "10.0.0.5:9000";
  probe_every = pos 2;
  timeout = pos 1;
  interval = pos 10;
}

abbrev pub result : ℕ → Action → ℕ → Option CallError → RunResult ℤ
result at action taken error = record {
  at = pos at;
  believed_action = transfer;
  action = action;
  predicted_seconds = pos 2;
  seconds_taken = pos taken;
  error = error;
}

abbrev pub requests : List (Scenario ℤ)
requests = near ∷ near ∷ near ∷ near ∷ []

abbrev results : List (RunResult ℤ)
results =
    result 0 transfer 0 (some lost)
    ∷ result 10 recompute 0 none
    ∷ result 20 recompute 0 none
    ∷ result 30 transfer 3 none
    ∷ []

abbrev pub hopeful : LastSample ℤ
hopeful = record { seconds_per_byte = pos 1 }

flaky-run : run last_sample flaky settings hopeful requests ≡ (results, none)
unfolding live
flaky-run = refl

retried : IsCall last_sample flaky settings requests results 3
unfolding live
retried = record {
  scenario = near;
  result = result 30 transfer 3 none;
  scenario_at = refl;
  result_at = refl;
  called = refl;
}

quiet : (m : ℕ) → m < 2 → ¬ IsCall last_sample flaky settings requests results (suc (0 + m))
unfolding live
quiet zero h c = ground (arith, c.scenario_at, c.result_at, c.called)
quiet (suc zero) h c = ground (arith, c.scenario_at, c.result_at, c.called)
quiet (suc (suc m)) h c = absurd (omega arith)

run_backoff_example : (pos 0 <ℤ pos 2) × (pos 2 ≤ℤ pos 2)
run_backoff_example =
    run_backoff last_sample flaky settings hopeful requests flaky-run 0 2
      (result 0 transfer 0 (some lost)) lost refl refl retried quiet

run_loop_teaches_example :
    let loop = run_loop last_sample flaky settings 0 (start hopeful) requests in
    AllReported flaky settings 0 loop.results requests
    × (loop.final ≡ lessons last_sample loop.results requests hopeful)
run_loop_teaches_example = run_loop_teaches last_sample flaky settings hopeful requests

run-Counted_example :
    Counted requests results none
    × Returned last_sample flaky settings hopeful requests results none
unfolding live
run-Counted_example = run-Counted last_sample flaky settings hopeful requests

-- A printer that tells only what is above 0.
abbrev signs : Printer ℤ
signs = record {
  six_places = λ x. if ltb_ℤ (pos 0) x then "+" else "0";
  decimal = λ x. if ltb_ℤ (pos 0) x then "+" else "0";
}

write_csv_lem_example :
    let rs = (run_loop last_sample flaky settings 0 (start hopeful) requests).results in
    (cells : List (List String)) × (write_csv signs requests rs ≡ some (headings ∷ cells))
    × AllRows signs flaky settings 0 requests rs cells
write_csv_lem_example = write_csv_lem signs flaky settings last_sample hopeful requests
