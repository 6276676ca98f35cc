-- ===== src/Simulator/Oracle.antt =====
-- A static policy that knows the bandwidth, of transfers without a startup, makes no wrong decision.
use kvflow.Prelude.{◌≡◌, refl, List, [], ◌∷◌, ok, arith, All, map, length, ap, suc}
use kvflow.Float64.{Float64, IsIeee}
use kvflow.Simulator.{
  Scenario, Outcome, decide, actual_ttft, best_actual, regret, record_outcome, pos, Action, ℤ,
}
use kvflow.Simulator.Policy.{static_outcome, run_static}
use kvflow.Simulator.Regret.{IsPlain, regret_lem}

-- No regret, and the prediction is what happens.
pub record IsPerfect (o : Outcome) : Type 0 where
  pub no_regret : o.regret ≡ pos 0
  pub predicted_true : o.predicted ≡ o.actual

module _ {F : Type 0} ⦃fl : Float64 F⦄ where
  -- The truth that the policy assumes: its own bandwidth, and no startup.
  abbrev pub assumed : F → Scenario F → Scenario F
  assumed bandwidth s = record s { bandwidth_bytes_per_sec = bandwidth; transfer_startup = pos 0 }

  -- Against a truth that is what the policy assumes, an action with a known time has an outcome.
  record_outcome-assumed :
      (bandwidth : F) (s : Scenario F) (a : Action) (time lost : ℤ)
      → let truth = assumed bandwidth s in
        actual_ttft truth a ≡ ok time
        → regret truth a ≡ ok lost
        → record_outcome truth (pos 0) truth a a
          ≡ ok (record {
            regret = lost;
            believed = a;
            executed = a;
            predicted = time;
            actual = time;
          })
  unfolding record_outcome actual_ttft
  record_outcome-assumed bandwidth s a time lost e f = ground arith

  module _ (laws : IsIeee F) (bandwidth : F) where
    static_outcome-IsPerfect :
        (s : Scenario F)
        → IsPlain (assumed bandwidth s)
        → (o : Outcome) × (static_outcome bandwidth (assumed bandwidth s) ≡ ok o) × IsPerfect o
    unfolding static_outcome decide best_actual
    static_outcome-IsPerfect s plain =
        let truth = assumed bandwidth s in
        let (best, eb, ea, er, _, _) = regret_lem laws truth plain in
        (
          record {
            regret = pos 0;
            believed = best.action;
            executed = best.action;
            predicted = best.estimated_ttft;
            actual = best.estimated_ttft;
          },
          rw eb (record_outcome-assumed bandwidth s best.action best.estimated_ttft (pos 0) ea er),
          record { no_regret = refl; predicted_true = refl },
        )

    -- If every truth has the bandwidth of the static policy and no startup, is valid and has
    -- durations of at most 2 ^ 53 nanoseconds, the run succeeds with an outcome for each truth, and
    -- none has regret or a wrong prediction.
    pub run_static-IsPerfect :
        (scenarios : List (Scenario F))
        → All (λ s. IsPlain (assumed bandwidth s)) scenarios
        → (os : List Outcome) × (run_static bandwidth (map (assumed bandwidth) scenarios) ≡ ok os)
          × (length os ≡ length scenarios)
          × All IsPerfect os
    unfolding run_static
    run_static-IsPerfect [] plain = ([], refl, refl, tt)
    run_static-IsPerfect (s ∷ ss) (p, ps) =
        let (o, eo, perfect) = static_outcome-IsPerfect s p in
        let (os, es, len, all) = run_static-IsPerfect ss ps in
        (o ∷ os, rw (eo, es), ap suc len, (perfect, all))
