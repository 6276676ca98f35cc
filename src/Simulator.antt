-- ===== src/Simulator.antt =====
-- internal/simulator/simulator.go: scenarios, the decision, the true times and the regret.
pub mod Regret
pub mod Policy
pub mod Outcomes
pub mod Probing
pub mod Accounts
pub mod Oracle
pub mod Adaptation
pub mod Workload
use kvflow.Prelude.{List, [], ◌∷◌, Result, ok, err, ◌>>=◌, unknown_action, if◌then◌else◌}
use kvflow.Int.{ℤ, pos, add64, sub64}
use kvflow.Float64.{Float64, ◌⊗◌, ◌⊘◌, second}
use kvflow.Scheduler.{Action, action_eq, Candidate, choose_lowest_ttft}
use kvflow.CostModel
use kvflow.CostModel.{Inputs}

pub record Request : Type 0 where
  pub prefix_tokens : ℤ
  pub suffix_tokens : ℤ

pub record Worker (F : Type 0) : Type 0 where
  pub queue : ℤ
  pub prefill_tokens_per_sec : F

pub record Scenario (F : Type 0) : Type 0 where
  pub source : Worker F
  pub destination : Worker F
  pub request : Request
  pub kv_bytes_per_token : F
  pub bandwidth_bytes_per_sec : F
  pub transfer_startup : ℤ

unfoldable pub ttft_of : List Candidate → Action → Result ℤ
ttft_of [] action = err unknown_action
ttft_of (c ∷ cs) action =
    if action_eq c.action action then ok c.estimated_ttft else ttft_of cs action

pub record Outcome : Type 0 where
  pub regret : ℤ
  pub believed : Action
  pub executed : Action
  pub predicted : ℤ
  pub actual : ℤ

module _ {F : Type 0} ⦃fl : Float64 F⦄ where
  open fl use {of_int, to_int}

  -- The startup is passed apart, so that a belief does not pick up the scenario's own.
  abbrev pub inputs : Scenario F → ℤ → Inputs F
  inputs s startup = record {
    queue_a = s.source.queue;
    queue_b = s.destination.queue;
    prefix_tokens = s.request.prefix_tokens;
    suffix_tokens = s.request.suffix_tokens;
    prefill_tokens_per_sec_a = s.source.prefill_tokens_per_sec;
    prefill_tokens_per_sec_b = s.destination.prefill_tokens_per_sec;
    kv_bytes_per_token = s.kv_bytes_per_token;
    bandwidth_bytes_per_sec = s.bandwidth_bytes_per_sec;
    transfer_startup = startup;
  }

  unfoldable pub estimate : Scenario F → ℤ → Result (List Candidate)
  estimate scenario startup = CostModel.estimate (inputs scenario startup)

  unfoldable pub decide : Scenario F → Result Candidate
  decide scenario = do candidates ← estimate scenario (pos 0); choose_lowest_ttft candidates

  unfoldable pub actual_costs : Scenario F → Result (List Candidate)
  unfolding estimate
  actual_costs truth = estimate truth truth.transfer_startup

  unfoldable pub actual_ttft : Scenario F → Action → Result ℤ
  unfolding actual_costs
  actual_ttft truth action = do candidates ← actual_costs truth; ttft_of candidates action

  unfoldable pub best_actual : Scenario F → Result Candidate
  unfolding actual_costs
  best_actual truth = do candidates ← actual_costs truth; choose_lowest_ttft candidates

  unfoldable pub regret : Scenario F → Action → Result ℤ
  unfolding actual_ttft best_actual
  regret truth chosen = do
    actual ← actual_ttft truth chosen
    best ← best_actual truth
    ok (sub64 actual best.estimated_ttft)

  unfoldable pub transfer_duration : Scenario F → ℤ
  transfer_duration truth =
      let bytes = of_int truth.request.prefix_tokens ⊗ truth.kv_bytes_per_token in
      add64 truth.transfer_startup (to_int (bytes ⊘ truth.bandwidth_bytes_per_sec ⊗ second))

  -- `record` of the source, which is a reserved word here.
  unfoldable pub record_outcome : Scenario F → ℤ → Scenario F → Action → Action → Result Outcome
  record_outcome belief startup truth believed executed = do
    predictions ← estimate belief startup
    predicted ← ttft_of predictions executed
    actual ← actual_ttft truth executed
    lost ← regret truth executed
    ok (record {
      regret = lost;
      believed = believed;
      executed = executed;
      predicted = predicted;
      actual = actual;
    })
