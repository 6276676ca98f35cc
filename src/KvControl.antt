-- ===== src/KvControl.antt =====
-- cmd/kvcontrol/main.go: `main` after the flags are parsed, up to the rows that it hands to the csv
-- writer. The gRPC client, the signal and the clock are the controller's environment.
pub mod Waiting
pub mod Writing
use Prim.Native.String.{String}
use text.Mathlib.Text.{◌==◌ as str_eq}
use kvflow.Prelude.{
  ℕ, suc, ◌/◌, ◌==◌, Bool, not, length, Option, none, some, List, Error, Result, ok, err, ◌>>=◌,
  if◌then◌else◌,
}
use kvflow.Int.{ℤ, pos, negsuc, pos_part, ltb_ℤ}
use kvflow.Float64.{Float64, ◌⊘◌, one, nought, seconds}
use kvflow.Simulator.{Scenario}
use kvflow.Simulator.Workload.{stable}
use kvflow.Learner.Line.{new_line}
use kvflow.Learner.Ewma.{new_ewma}
use kvflow.KvReplay.{AnyLearner, line_learner, ewma_learner, any_learner, initial_seconds_per_byte}
use kvflow.Controller.{
  CallError, Cut, Stop, bad_input, cut, ended, call, Env, Config, RunResult, run,
}
use kvflow.Controller.Report.{Printer, write_csv}

-- The flags that decide what `main` does.
pub record Flags (F : Type 0) : Type 0 where
  pub worker : String
  pub peer : String
  pub kind : String
  pub alpha : F
  pub probe : ℤ
  pub timeout : ℤ
  pub interval : ℤ
  pub duration : ℤ
  pub bytes : ℤ
  pub recompute : ℤ

-- What is outside: whether `grpc.NewClient` takes the worker's address, whether standard output can be
-- written, whether `errors.Is` finds context.Canceled in the error of a call, and the controller's world.
pub record World (F : Type 0) : Type 0 where
  pub has_client : String → Bool
  pub can_write : Bool
  pub is_canceled : CallError → Bool
  pub env : Env F

-- What `log.Fatal` reports: a missing peer, an interval that is not positive, an unknown learner, no
-- client, output that cannot be written, the error of a learner, or the error of the run.
pub data Fatal : Type 0 where
  no_peer bad_interval bad_kind no_client no_output : Fatal
  bad_learner : Error → Fatal
  run_failed : Stop → Fatal

-- How `main` ends: by `log.Fatal`, in a panic, or with rows written and the two numbers that it logs, of
-- the results and of the requests.
pub data Exit : Type 0 where
  fatal : Fatal → Exit
  panicked : Exit
  wrote : List (List String) → ℕ → ℕ → Exit

-- `int(duration / interval)` for an interval above 0, which drops the fraction; `none` below 0, for which
-- `make` panics. It panics for more requests than memory holds too, which is left out.
abbrev pub request_count : ℤ → ℤ → Option ℕ
request_count (pos d) interval = some (d / pos_part interval)
request_count (negsuc d) interval = if suc d / pos_part interval == 0 then some 0 else none

-- `err != nil && !errors.Is(err, context.Canceled)`: the context ends by Ctrl-C only, so its own error is
-- context.Canceled.
abbrev pub is_fatal : (CallError → Bool) → Option Stop → Option Stop
is_fatal is_canceled none = none
is_fatal is_canceled (some (bad_input e)) = some (bad_input e)
is_fatal is_canceled (some (cut ended)) = none
is_fatal is_canceled (some (cut (call e))) = if is_canceled e then none else some (cut (call e))

-- time.Hour
abbrev pub hour : ℤ
hour = pos 3_600_000_000_000

abbrev pub config : {F : Type 0} → Flags F → Config
config flags = record {
  peer_addr = flags.peer;
  probe_every = flags.probe;
  timeout = flags.timeout;
  interval = flags.interval;
}

module _ {F : Type 0} ⦃fl : Float64 F⦄ where
  -- Fields that the literal leaves out are 0.
  unfoldable pub scenario : ℤ → ℤ → Scenario F
  scenario bytes recompute = record {
    source = record { queue = hour; prefill_tokens_per_sec = one };
    destination = record { queue = pos 0; prefill_tokens_per_sec = one ⊘ seconds recompute };
    request = record { prefix_tokens = pos 1; suffix_tokens = pos 0 };
    kv_bytes_per_token = fl.of_int bytes;
    bandwidth_bytes_per_sec = nought;
    transfer_startup = pos 0;
  }

  -- The `switch` on the kind of learner; `none` is its default.
  unfoldable pub new_learner : String → F → Option (Result (AnyLearner F))
  new_learner kind alpha =
      if str_eq kind "line"
      then some (new_line alpha initial_seconds_per_byte >>= λ l. ok (line_learner l))
      else if str_eq kind "ewma"
      then some (new_ewma alpha initial_seconds_per_byte >>= λ l. ok (ewma_learner l))
      else none

  -- From the run on: what it returned is written unless its error is fatal.
  unfoldable pub finish :
      Printer F → World F → List (Scenario F) → List (RunResult F) × Option Stop → Exit
  finish printer world scenarios (results, stop) = elim (is_fatal world.is_canceled stop) [
    | some e ↦ fatal (run_failed e)
    | none ↦ elim (write_csv printer scenarios results) [
      | none ↦ panicked
      | some rows ↦
          if world.can_write
          then wrote rows (length results) (length scenarios)
          else fatal no_output
    ]
  ]

  -- The run with a learner.
  unfoldable pub start_run : Printer F → World F → Flags F → AnyLearner F → Exit
  start_run printer world flags l = elim (request_count flags.duration flags.interval) [
    | none ↦ panicked
    | some n ↦
        let scenarios = stable n (scenario flags.bytes flags.recompute) in
        finish printer world scenarios (run any_learner world.env (config flags) l scenarios)
  ]

  unfoldable pub main : Printer F → World F → Flags F → Exit
  main printer world flags =
      if str_eq flags.peer ""
      then fatal no_peer
      else if not (ltb_ℤ (pos 0) flags.interval)
      then fatal bad_interval
      else elim (new_learner flags.kind flags.alpha) [
        | none ↦ fatal bad_kind
        | some (err e) ↦ fatal (bad_learner e)
        | some (ok l) ↦
            if world.has_client flags.worker
            then start_run printer world flags l
            else fatal no_client
      ]
