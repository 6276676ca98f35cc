-- ===== src/KvBench/Perfect.antt =====
-- The static policy on the workload that it assumes.
use kvflow.Prelude.{
  ℕ, zero, suc, ◌+◌, ◌*◌, ◌≤◌, ◌≡◌, refl, sym, ap, ◌∙◌, none, some, List, [], ◌∷◌, ok, All, map,
  length-replicate, arith, ◌⊎◌, inl, inr, Result, ◌==◌, Bool-cases, if_keeps, ◌<◌, if◌then◌else◌,
}
use kvflow.Int.{ℤ, pos, add64, sub64, wrap64, ◌-ℤ◌, ◌+ℤ◌, sub_self, add64_exact}
use kvflow.Float64.{Float64, IsIeee, IsExact, max_exact, ◌⊘◌, ◌⊗◌, ◌≼◌, nought, second}
use kvflow.CostModel.Validity.{IsFinitePositive}
use kvflow.CostModel.Bounds.{IsShort, nanoseconds}
use kvflow.Simulator.{Scenario, Outcome}
use kvflow.Simulator.Policy.{run_static}
use kvflow.Simulator.Workload.{stable}
use kvflow.Simulator.Regret.{IsPlain}
use kvflow.Simulator.Oracle.{IsPerfect, assumed, run_static-IsPerfect}
use kvflow.Scheduler.{action_eq, transfer}
use kvflow.KvBench.{
  Tally, plus, seeds, start, millisecond, add_regrets, add_errors, regret_loop, error_loop,
  mean_regret_ms, mean_transfer_error_ms,
}
use kvflow.KvBench.Setup.{scenario, fast_bandwidth, static_policy}

module _ {F : Type 0} ⦃fl : Float64 F⦄ (laws : IsIeee F) (exact : IsExact F) where
  of_nat-IsFinitePositive : (n : ℕ) → IsFinitePositive (fl.of_int (pos (suc n)))
  of_nat-IsFinitePositive n =
      let f = laws.of_int_finite (pos (suc n)) in
      record { positive = laws.of_int_pos n; not_inf = ground arith; not_nan = ground arith }

  -- An amount of `q * k` at a rate of `k` or more takes at most `q` seconds.
  IsShort-quotient :
      (q k r : ℕ)
      → q * 1_000_000_000 ≤ max_exact
      → q * suc k ≤ max_exact
      → k ≤ r
      → IsShort (nanoseconds (fl.of_int (pos (q * suc k))) (fl.of_int (pos (suc r))))
  IsShort-quotient q k r fits whole le =
      let amount : F = fl.of_int (pos (q * suc k)) in
      let rate : F = fl.of_int (pos (suc r)) in
      let r_ok = of_nat-IsFinitePositive r in
      let s_ok = of_nat-IsFinitePositive 999_999_999 in
      let slower : amount ⊘ rate ≼ amount ⊘ fl.of_int (pos (suc k)) =
        laws.div_antitone amount (fl.of_int (pos (suc k))) rate
          (laws.of_int_mono (pos 0) (pos (q * suc k)) (omega arith)) (laws.of_int_pos k)
          (laws.of_int_mono (pos (suc k)) (pos (suc r)) (omega arith)) r_ok.not_inf in
      let seconds_ : amount ⊘ rate ≼ fl.of_int (pos q) = rw (exact.div_exact q k whole) at slower in
      let product =
        laws.mul_mono (amount ⊘ rate) (fl.of_int (pos q)) second seconds_ s_ok.positive
          s_ok.not_inf in
      laws.le_trans (amount ⊘ rate ⊗ second) (fl.of_int (pos (q * 1_000_000_000)))
        (fl.of_int (pos max_exact)) (rw (exact.mul_exact q 1_000_000_000 fits) at product)
        (laws.of_int_mono (pos (q * 1_000_000_000)) (pos max_exact) (omega arith))

  fast-IsPlain : IsPlain (assumed fast_bandwidth (scenario {F = F} fast_bandwidth))
  unfolding scenario
  fast-IsPlain = record {
    valid = record {
      queue_a_nonneg = omega arith;
      queue_b_nonneg = omega arith;
      startup_nonneg = omega arith;
      prefix_nonneg = omega arith;
      suffix_nonneg = omega arith;
      rate_a_positive = of_nat-IsFinitePositive 49_999;
      rate_b_positive = of_nat-IsFinitePositive 49_999;
      kv_positive = of_nat-IsFinitePositive 39_999;
      bandwidth_positive = of_nat-IsFinitePositive 9_999_999_999;
    };
    within = record {
      queue_a_le = omega arith;
      queue_b_le = omega arith;
      startup_le = omega arith;
      suffix_a_short = IsShort-quotient 1_000 0 49_999 (omega arith) (omega arith) (omega arith);
      suffix_b_short = IsShort-quotient 1_000 0 49_999 (omega arith) (omega arith) (omega arith);
      send_short = rw (exact.mul_exact 50_000 40_000 (omega arith)) (
          IsShort-quotient 1_000 1_999_999 9_999_999_999 (omega arith) (omega arith) (omega arith));
      recompute_short =
          rw (exact.add_exact 50_000 1_000 (omega arith))
            (IsShort-quotient 51_000 0 49_999 (omega arith) (omega arith) (omega arith));
    };
  }

-- Sums of nothing.
zero_sum : add64 (pos 0) (pos 0) ≡ pos 0
unfolding ◌+ℤ◌
zero_sum = add64_exact (pos 0) (pos 0) (omega arith) (omega arith) ∙ refl

add_regrets-IsPerfect : (os : List Outcome) → All IsPerfect os → add_regrets (pos 0) os ≡ pos 0
add_regrets-IsPerfect [] h = refl
add_regrets-IsPerfect (o ∷ os) (h, hs) = rw (h.no_regret, zero_sum) (add_regrets-IsPerfect os hs)

no_error : (a b : ℤ) → a ≡ b → sub64 a b ≡ pos 0
unfolding wrap64
no_error a b e = ap wrap64 (ap (λ x. x -ℤ b) e ∙ sub_self b) ∙ refl

add_errors-IsPerfect :
    (t : Tally) (os : List Outcome)
    → t.total ≡ pos 0
    → All IsPerfect os
    → (add_errors t os).total ≡ pos 0
unfolding add_errors
add_errors-IsPerfect t [] z h = z
add_errors-IsPerfect t (o ∷ os) z (h, hs) =
    let lost = sub64 o.actual o.predicted in
    let next : add64 t.total lost ≡ pos 0 =
      rw (z, no_error o.actual o.predicted (sym h.predicted_true)) zero_sum in
    add_errors-IsPerfect (if action_eq o.executed transfer then plus t lost else t) os
      (if_keeps (λ (u : Tally). u.total ≡ pos 0) (action_eq o.executed transfer) (λ _. next)
        (λ _. z))
      hs

module _ {F : Type 0} ⦃fl : Float64 F⦄ (run : List (Scenario F) → ℕ → Result (List Outcome))
    (truths : List (Scenario F)) (os : List Outcome) (runs : (seed : ℕ) → run truths seed ≡ ok os)
    (perfect : All IsPerfect os) where
  regret_loop-IsPerfect : (n seed : ℕ) → regret_loop run n seed truths (pos 0) ≡ ok (pos 0)
  unfolding regret_loop
  regret_loop-IsPerfect zero seed = refl
  regret_loop-IsPerfect (suc n) seed =
      rw (runs seed, add_regrets-IsPerfect os perfect) (regret_loop-IsPerfect n (seed + 1))

  error_loop-IsPerfect :
      (n seed : ℕ) (t : Tally)
      → t.total ≡ pos 0
      → (u : Tally) × (error_loop run n seed truths t ≡ ok u) × (u.total ≡ pos 0)
  unfolding error_loop
  error_loop-IsPerfect zero seed t z = (t, refl, z)
  error_loop-IsPerfect (suc n) seed t z =
      let (u, e, v) =
        error_loop-IsPerfect n (seed + 1) (add_errors t os) (add_errors-IsPerfect t os z perfect) in
      (u, rw (runs seed) e, v)

module _ {F : Type 0} ⦃fl : Float64 F⦄ (laws : IsIeee F) where
  no_milliseconds :
      (n : ℕ) {total : ℤ}
      → total ≡ pos 0
      → 0 < n
      → fl.of_int total ⊘ millisecond ⊘ fl.of_int (pos n) ≡ nought
  no_milliseconds zero z h = absurd (omega arith)
  no_milliseconds (suc n) z h =
      ap (λ t. fl.of_int t ⊘ millisecond ⊘ fl.of_int (pos (suc n))) z
      ∙ ap (λ x. x ⊘ fl.of_int (pos (suc n)))
          (laws.zero_div millisecond (laws.of_int_pos 999_999) (laws.of_int_finite (pos 1_000_000)))
      ∙ laws.zero_div (fl.of_int (pos (suc n))) (laws.of_int_pos n)
          (laws.of_int_finite (pos (suc n)))

  module _ (exact : IsExact F) where
    All-fast :
        (n : ℕ)
        → All (λ s. IsPlain (assumed fast_bandwidth s)) (stable n (scenario {F = F} fast_bandwidth))
    All-fast zero = tt
    All-fast (suc n) = (fast-IsPlain laws exact, All-fast n)

    assumed_fast :
        (n : ℕ)
        → map (assumed fast_bandwidth) (stable n (scenario {F = F} fast_bandwidth))
          ≡ stable n (scenario fast_bandwidth)
    unfolding scenario
    assumed_fast zero = refl
    assumed_fast (suc n) = ap (λ l. scenario fast_bandwidth ∷ l) (assumed_fast n)

    fast_runs :
        (n : ℕ)
        → (os : List Outcome) × (run_static fast_bandwidth
              (stable n (scenario {F = F} fast_bandwidth))
            ≡ ok os)
          × All IsPerfect os
    fast_runs n =
        let (os, e, _, perfect) =
          run_static-IsPerfect laws fast_bandwidth (stable n (scenario fast_bandwidth))
            (All-fast n) in
        (os, ap (run_static fast_bandwidth) (sym (assumed_fast n)) ∙ e, perfect)

    -- kvbench's static policy on its workload stable-fast, which is what the policy assumes, of one request
    -- or more: the mean regret is 0, and the mean transfer error is 0 too, unless no request is a transfer.
    pub static_stable_fast :
        (n : ℕ)
        → 0 < n
        → let run = (static_policy {F = F}).run in
          let truths = stable n (scenario {F = F} fast_bandwidth) in
          (mean_regret_ms run truths ≡ ok nought)
          × ((mean_transfer_error_ms run truths ≡ ok none)
              ⊎ (mean_transfer_error_ms run truths ≡ ok (some nought)))
    unfolding mean_regret_ms mean_transfer_error_ms
    static_stable_fast n h =
        let run = (static_policy {F = F}).run in
        let truths = stable n (scenario {F = F} fast_bandwidth) in
        let (os, e, perfect) = fast_runs n in
        let (u, eu, z) =
          error_loop-IsPerfect run truths os (λ seed. e) perfect seeds 0 start refl in
        (
          rw
              (
                regret_loop-IsPerfect run truths os (λ seed. e) perfect seeds 0,
                length-replicate n (scenario {F = F} fast_bandwidth),
              )
              (ap ok (no_milliseconds (seeds * n) refl (omega arith))),
          elim (Bool-cases (u.count == 0)) [
            | inl nothing ↦ inl (rw (eu, nothing) refl)
            | inr some_ ↦
                inr (
                  rw (eu, some_) (ap (λ x. ok (some x)) (no_milliseconds u.count z (ground arith))))
          ],
        )
