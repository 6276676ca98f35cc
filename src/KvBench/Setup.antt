-- ===== src/KvBench/Setup.antt =====
-- cmd/kvbench/main.go: the scenarios, the workloads and the policies that `main` compares. The random
-- generators of math/rand/v2 and the printing of numbers are parameters.
use Prim.Native.String.{String, ◌++◌ as str_append}
use kvflow.Prelude.{ℕ, Option, none, some, List, [], ◌∷◌, ◌++◌, Result, ok, ◌>>=◌}
use kvflow.Int.{ℤ, pos}
use kvflow.Float64.{Float64, ◌⊘◌, one}
use kvflow.Learner.{Learner}
use kvflow.Learner.Ewma.{ewma, new_ewma}
use kvflow.Learner.Line.{line, new_line}
use kvflow.Simulator.{Scenario, Outcome}
use kvflow.Simulator.Policy.{run_static, run_adaptive, noisy_observe}
use kvflow.Simulator.Workload.{stable, slowdown_then_recovery, flapping, mixed_prefixes, drift}

-- math/rand/v2: `rand.New(rand.NewPCG(seed, seed))`, and its `IntN` and `Float64`.
pub record Rand (F R : Type 0) : Type 0 where
  pub new : ℕ → R
  pub int_n : R → ℕ → ℕ × R
  pub float64 : R → F × R

-- fmt's `%.1f` of a float and `%d` of an integer.
pub record Verbs (F : Type 0) : Type 0 where
  pub one_place : F → String
  pub decimal : ℤ → String

-- `workload` and `policy` of the source.
pub record Workload (F : Type 0) : Type 0 where
  pub name : String
  pub truths : List (Scenario F)

pub record Policy (F : Type 0) : Type 0 where
  pub name : String
  pub run : List (Scenario F) → ℕ → Result (List Outcome)

-- The changing workloads, and all of them.
pub record Workloads (F : Type 0) : Type 0 where
  pub changing : List (Workload F)
  pub every : List (Workload F)

abbrev pub probe_intervals : List ℕ
probe_intervals = 0 ∷ 5 ∷ 20 ∷ 100 ∷ []

module _ {F : Type 0} ⦃fl : Float64 F⦄ where
  -- `fastBandwidth` and `slowBandwidth`
  abbrev pub fast_bandwidth : F
  fast_bandwidth = fl.of_int (pos 10_000_000_000)

  abbrev pub slow_bandwidth : F
  slow_bandwidth = fl.of_int (pos 1_000_000_000)

  unfoldable pub scenario : F → Scenario F
  scenario bandwidth = record {
    source = record { queue = pos 1_500_000_000; prefill_tokens_per_sec = fl.of_int (pos 50_000) };
    destination = record {
      queue = pos 50_000_000;
      prefill_tokens_per_sec = fl.of_int (pos 50_000);
    };
    request = record { prefix_tokens = pos 50_000; suffix_tokens = pos 1_000 };
    kv_bytes_per_token = fl.of_int (pos 40_000);
    bandwidth_bytes_per_sec = bandwidth;
    transfer_startup = pos 0;
  }

  unfoldable pub startup_scenario : Scenario F
  unfolding scenario
  startup_scenario = record (scenario fast_bandwidth) { transfer_startup = pos 200_000_000 }

  -- `flapping` and `mixed` of `main`; `none` where one of the two has an index out of range or
  -- the loop of `Flapping` has no fuel left.
  abbrev pub two_drawn :
      Result (Option (List (Scenario F)))
      → Result (Option (List (Scenario F)))
      → Result (Option (List (Scenario F) × List (Scenario F)))
  two_drawn flaps mixes = do
    flapped ← flaps
    mixed ← mixes
    ok (elim flapped [ none ↦ none | some f ↦ elim mixed [ none ↦ none | some m ↦ some (f, m) ] ])

  unfoldable pub changing_workloads : ℕ → List (Scenario F) → List (Workload F)
  changing_workloads requests flapped =
      let fast = scenario fast_bandwidth in
      let slow = scenario slow_bandwidth in
      record { name = "slowdown+recovery"; truths = slowdown_then_recovery requests fast slow }
      ∷ record { name = "flapping"; truths = flapped }
      ∷ record { name = "drift"; truths = drift requests fast slow }
      ∷ []

  unfoldable pub all_workloads : ℕ → List (Scenario F) → List (Scenario F) → List (Workload F)
  unfolding changing_workloads
  all_workloads requests flapped mixed =
      (record { name = "stable-fast"; truths = stable requests (scenario fast_bandwidth) }
        ∷ record { name = "stable-slow"; truths = stable requests (scenario slow_bandwidth) }
        ∷ [])
      ++ (changing_workloads requests flapped
          ++ (record { name = "startup"; truths = stable requests startup_scenario }
              ∷ record { name = "startup+mixed"; truths = mixed }
              ∷ []))

  abbrev pub static_policy : Policy F
  static_policy = record { name = "static"; run = λ truths seed. run_static fast_bandwidth truths }

  module _ {R : Type 0} (rng : Rand F R) where
    -- The workloads of so many requests, from generators with `workloadSeed`.
    unfoldable pub new_workloads : ℕ → Result (Option (Workloads F))
    unfolding all_workloads
    new_workloads requests = do
      drawn ←
          two_drawn
            (flapping rng.int_n (rng.new 1) requests (pos 150) (pos 250) (scenario fast_bandwidth)
              (scenario slow_bandwidth))
            (mixed_prefixes rng.int_n (rng.new 1) requests startup_scenario
              (pos 2_000 ∷ pos 50_000 ∷ []))
      ok (elim drawn [
        | none ↦ none
        | some (flapped, mixed) ↦ some (record {
          changing = changing_workloads requests flapped;
          every = all_workloads requests flapped mixed;
        })
      ])

    -- The `run` of an adaptive policy: a seed makes the noise of the reports.
    unfoldable pub adaptive_run :
        {L : Type 0}
        → Learner F L
        → (F → Result L)
        → F
        → ℕ
        → List (Scenario F)
        → ℕ
        → Result (List Outcome)
    adaptive_run learner new alpha probe_every truths seed = do
      observe ← noisy_observe rng.float64 (fl.of_int (pos 3) ⊘ fl.of_int (pos 10))
      l ← new alpha
      (run_adaptive learner observe l (rng.new seed) (pos probe_every) truths).0

    -- The loop over the alphas and the probe intervals.
    abbrev pub policy_name : Verbs F → String → F → ℕ → String
    policy_name verbs name alpha probe_every = str_append name (
        str_append " K="
          (str_append (verbs.decimal (pos probe_every)) (str_append " α=" (verbs.one_place alpha))))

    unfoldable pub with_probes :
        {L : Type 0}
        → Verbs F
        → String
        → Learner F L
        → (F → Result L)
        → F
        → List ℕ
        → List (Policy F)
    with_probes verbs name learner new alpha [] = []
    with_probes verbs name learner new alpha (k ∷ ks) =
        record { name = policy_name verbs name alpha k; run = adaptive_run learner new alpha k }
        ∷ with_probes verbs name learner new alpha ks

    unfoldable pub with_alphas :
        {L : Type 0} → Verbs F → String → Learner F L → (F → Result L) → List F → List (Policy F)
    unfolding with_probes
    with_alphas verbs name learner new [] = []
    with_alphas verbs name learner new (alpha ∷ alphas) =
        with_probes verbs name learner new alpha probe_intervals
        ++ with_alphas verbs name learner new alphas

    unfoldable pub policies : Verbs F → List (Policy F)
    unfolding with_alphas
    policies verbs =
        let alphas : List F = fl.tenth ∷ one ⊘ fl.of_int (pos 2) ∷ [] in
        static_policy
        ∷ (with_alphas verbs "adaptive" ewma (λ alpha. new_ewma alpha (one ⊘ fast_bandwidth)) alphas
            ++ with_alphas verbs "line" line (λ alpha. new_line alpha (one ⊘ fast_bandwidth))
                alphas)
