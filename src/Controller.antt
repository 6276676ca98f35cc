-- ===== src/Controller.antt =====
-- internal/controller/controller.go: the decision loop against a real worker. The worker, the clock
-- and the context are the environment: for each request it says how the wait and the call ended.
pub mod Turns
pub mod Steps
pub mod Backoff
pub mod Lessons
pub mod Report
use kvflow.Learner.{Learner}
use kvflow.Scheduler.{Candidate, Action, action_eq, transfer, choose_lowest_ttft}
use kvflow.Int.{ℤ, ltb_ℤ, pos, mul64}
use Prim.Native.String.{String}
use kvflow.Prelude.{
  ◌>>=◌, [], ◌∷◌, List, ℕ, Error, Bool, Option, true, if◌then◌else◌, false, ltb, Result, ◌||◌, none,
  ok, some, ◌+◌, err, ◌&&◌, invalid_probe, not, invalid_timeout, invalid_interval,
}
use kvflow.CostModel
use kvflow.Float64.{Float64, ◌⊕◌, ◌⊗◌, ◌⊘◌, nought, one, seconds}
use kvflow.Simulator.{inputs, Scenario}
use kvflow.Simulator.Policy.{is_probe_due, believed, learn}

-- The gRPC codes that the controller and the worker tell apart.
pub data Code : Type 0 where
  invalid_argument permission_denied unavailable deadline_exceeded canceled : Code
  other_code : ℕ → Code

pub record CallError : Type 0 where
  pub code : Code
  pub text : String

-- What cuts a run short: the context ended in a wait, or the error of a call.
pub data Cut : Type 0 where
  ended : Cut
  call : CallError → Cut

-- Why a run returned an error: its settings or its scenarios, or a cut.
pub data Stop : Type 0 where
  bad_input : Error → Stop
  cut : Cut → Stop

-- How `client.Transfer` returned: with the worker's seconds, or with an error, after which the
-- context had ended or not.
pub data Reply (F : Type 0) : Type 0 where
  replied : F → Reply F
  failed : CallError → Bool → Reply F

-- How `waitUntil` returned: the context ended, or the request started at a time since the start.
pub data Wait : Type 0 where
  cut_off : Wait
  started : ℤ → Wait

-- For each request: the wait for a time since the start, and the call for a peer, bytes and timeout.
pub record Env (F : Type 0) : Type 0 where
  pub wait_until : ℕ → ℤ → Wait
  pub transfer_call : ℕ → String → ℤ → ℤ → Reply F

pub record Config : Type 0 where
  pub peer_addr : String
  pub probe_every : ℤ
  pub timeout : ℤ
  pub interval : ℤ

-- `Result` of the source.
pub record RunResult (F : Type 0) : Type 0 where
  pub at : ℤ
  pub believed_action : Action
  pub action : Action
  pub predicted_seconds : F
  pub seconds_taken : F
  pub error : Option CallError

-- The variables of the loop that outlive a request.
pub record RunState (L : Type 0) : Type 0 where
  pub learner : L
  pub since_transfer : ℕ
  pub down : Bool

-- How one request ends: the loop goes on, or `Run` returns the results so far, or none.
pub data Turn (F L : Type 0) : Type 0 where
  next : RunResult F → RunState L → Turn F L
  stopped : Cut → Turn F L
  aborted : Error → Turn F L

-- How the loop ended.
pub data Ending : Type 0 where
  completed : Ending
  stopped_by : Cut → Ending
  aborted_by : Error → Ending

pub record Loop (F L : Type 0) : Type 0 where
  pub results : List (RunResult F)
  pub ending : Ending
  pub final : L

abbrev pub prepend : {F L : Type 0} → RunResult F → Loop F L → Loop F L
prepend r loop = record loop { results = r ∷ loop.results }

unfoldable pub without_transfer : List Candidate → List Candidate
without_transfer [] = []
without_transfer (c ∷ cs) =
    if action_eq c.action transfer then without_transfer cs else c ∷ without_transfer cs

unfoldable pub best_without_transfer : List Candidate → Result Action
unfolding without_transfer
best_without_transfer candidates = do
  choice ← choose_lowest_ttft (without_transfer candidates)
  ok choice.action

-- The `switch` after the choice: a due probe, a path that is down, or the choice.
unfoldable pub pick_action : ℤ → ℕ → Bool → List Candidate → Action → Result Action
unfolding best_without_transfer
pick_action probe_every since down candidates choice =
    if is_probe_due probe_every since
    then ok transfer
    else if down && action_eq choice transfer
    then best_without_transfer candidates
    else ok choice

-- Codes for which every later transfer would be rejected too.
abbrev pub is_rejection : Code → Bool
is_rejection invalid_argument = true
is_rejection permission_denied = true
is_rejection _ = false

unfoldable pub config_error : Config → Option Error
config_error cfg =
    if ltb_ℤ cfg.probe_every (pos 0)
    then some invalid_probe
    else if not (ltb_ℤ (pos 0) cfg.timeout)
    then some invalid_timeout
    else if ltb_ℤ cfg.interval (pos 0)
    then some invalid_interval
    else none

-- What `Run` returns: an aborted loop returns no results.
unfoldable pub returned : {F L : Type 0} → Loop F L → List (RunResult F) × Option Stop
returned loop = elim loop.ending [
  | completed ↦ (loop.results, none)
  | stopped_by e ↦ (loop.results, some (cut e))
  | aborted_by e ↦ ([], some (bad_input e))
]

module _ {F : Type 0} ⦃fl : Float64 F⦄ where
  unfoldable pub prefix_bytes : Scenario F → ℤ
  prefix_bytes s = fl.to_int (fl.of_int s.request.prefix_tokens ⊗ s.kv_bytes_per_token)

  -- Whether a request asks the worker: `continue` is not taken.
  abbrev pub is_called : Scenario F → Action → Bool
  is_called s action = action_eq action transfer && ltb_ℤ (pos 0) (prefix_bytes s)

  module _ {L : Type 0} (learner : Learner F L) where
    -- The learner's choice and the action that is taken.
    unfoldable pub plan : Config → RunState L → Scenario F → Result (Action × Action)
    plan cfg st s = do
      candidates ←
          CostModel.estimate (inputs (believed learner st.learner s) (learner.startup st.learner))
      choice ← choose_lowest_ttft candidates
      action ← pick_action cfg.probe_every st.since_transfer st.down candidates choice.action
      ok (choice.action, action)

    unfoldable pub predicted : L → Scenario F → F
    predicted l s =
        seconds (learner.startup l) ⊕ fl.of_int (prefix_bytes s) ⊗ learner.seconds_per_byte l

    -- The call's effect on the result and the state.
    unfoldable pub after_call : RunState L → Scenario F → RunResult F → Reply F → Turn F L
    after_call st s r (replied taken) =
        next (record r { seconds_taken = taken })
          (record {
            learner = learner.observe st.learner (fl.of_int (prefix_bytes s)) taken;
            since_transfer = 0;
            down = false;
          })
    after_call st s r (failed e context_ended) =
        if context_ended || is_rejection e.code
        then stopped (call e)
        else next (record r { error = some e }) (record st { since_transfer = 0; down = true })

    module _ (env : Env F) (cfg : Config) where
      -- The request from its start.
      unfoldable pub take_turn : ℕ → RunState L → Scenario F → ℤ → Action × Action → Turn F L
      take_turn i st s at (choice, action) =
          let r : RunResult F = record {
            at = at;
            believed_action = choice;
            action = action;
            predicted_seconds = predicted st.learner s;
            seconds_taken = nought;
            error = none;
          } in
          if is_called s action
          then after_call st s r (env.transfer_call i cfg.peer_addr (prefix_bytes s) cfg.timeout)
          else next r (record st { since_transfer = st.since_transfer + 1 })

      unfoldable pub turn : ℕ → RunState L → Scenario F → Turn F L
      unfolding take_turn
      turn i st s = elim (env.wait_until i (mul64 (pos i) cfg.interval)) [
        | cut_off ↦ stopped ended
        | started at ↦ elim (plan cfg st s) [
          | err e ↦ aborted e
          | ok actions ↦ take_turn i st s at actions
        ]
      ]

      -- The loop over the scenarios from index `i`, with the results of the finished requests, how
      -- it ended, and the learner at the end.
      unfoldable pub run_loop : ℕ → RunState L → List (Scenario F) → Loop F L
      run_loop i st [] = record { results = []; ending = completed; final = st.learner }
      run_loop i st (s ∷ ss) = elim (turn i st s) [
        | stopped e ↦ record { results = []; ending = stopped_by e; final = st.learner }
        | aborted e ↦ record { results = []; ending = aborted_by e; final = st.learner }
        | next r st' ↦ prepend r (run_loop (i + 1) st' ss)
      ]

      unfoldable pub run : L → List (Scenario F) → List (RunResult F) × Option Stop
      run l scenarios = elim (config_error cfg) [
        | some e ↦ ([], some (bad_input e))
        | none ↦
            returned
              (run_loop 0 (record { learner = l; since_transfer = 0; down = false }) scenarios)
      ]
