-- ===== src/Simulator/Outcomes.antt =====
-- What the outcomes of a run say of the true scenarios.
use kvflow.Prelude.{
  ◌≡◌, inl, inr, List, [], ◌∷◌, Result, ok, err, arith, Matched, >>=-eq-ok, ok-injective, ◌∙◌,
  Result-cases, sym, Error, ◌≢◌, ap,
}
use kvflow.Int.{ℤ, pos}
use kvflow.Float64.{Float64}
use kvflow.Scheduler.{Action, choose_lowest_ttft}
use kvflow.Learner.{Learner}
use kvflow.Simulator.{Scenario, Outcome, estimate, actual_ttft, regret, record_outcome, decide}
use kvflow.Simulator.Policy.{
  AdaptiveState, static_outcome, run_static, adaptive_outcome, adaptive_next, adaptive_loop,
  executed, frozen, believed, prepend,
}

pub err-ne-ok :
    {A S : Type 0} {x : Error} {a : A} {s t : S} → ◌≢◌ {A = Result A × S} (err x, s) (ok a, t)
err-ne-ok e = cc (ap (λ p. p.0) e)

prepend-eq-ok :
    {S : Type 0} (o : Outcome) (p : Result (List Outcome) × S) {os : List Outcome} {s : S}
    → prepend o p ≡ (ok os, s)
    → (rest : List Outcome) × (p ≡ (ok rest, s)) × (os ≡ o ∷ rest)
prepend-eq-ok o (ok rest, t) e = (rest, ground arith, ground arith)
prepend-eq-ok o (err x, t) e = absurd (err-ne-ok e)

module _ {F : Type 0} ⦃fl : Float64 F⦄ where
  -- The outcome's time and regret are the true ones of the action that was executed.
  pub record IsTrue (truth : Scenario F) (o : Outcome) : Type 0 where
    pub actual_true : actual_ttft truth o.executed ≡ ok o.actual
    pub regret_true : regret truth o.executed ≡ ok o.regret

  pub record_outcome-IsTrue :
      (belief truth : Scenario F) (startup : ℤ) (believed executed : Action) {o : Outcome}
      → record_outcome belief startup truth believed executed ≡ ok o
      → IsTrue truth o × (o.believed ≡ believed) × (o.executed ≡ executed)
  unfolding record_outcome
  record_outcome-IsTrue belief truth startup believed executed e = ground arith

  static_outcome-IsTrue :
      (bandwidth : F) (truth : Scenario F) (o : Outcome)
      → static_outcome bandwidth truth ≡ ok o
      → IsTrue truth o × (o.executed ≡ o.believed)
  unfolding static_outcome
  static_outcome-IsTrue bandwidth truth o e =
      let (c, ec, e1) = >>=-eq-ok _ (decide (frozen bandwidth truth)) e in
      let (real, b, x) =
        record_outcome-IsTrue (frozen bandwidth truth) truth (pos 0) c.action c.action e1 in
      (real, x ∙ sym b)

  -- A run of the static policy that succeeds has one outcome for each truth, in order: it executed
  -- what it believed best, and reports the true time and regret of that action.
  pub run_static-IsTrue :
      (bandwidth : F) (truths : List (Scenario F)) (os : List Outcome)
      → run_static bandwidth truths ≡ ok os
      → Matched (λ truth o. IsTrue truth o × (o.executed ≡ o.believed)) truths os
  unfolding run_static
  run_static-IsTrue bandwidth [] os e = rw (← ok-injective e) tt
  run_static-IsTrue bandwidth (truth ∷ truths) os e =
      let (o, eo, e1) = >>=-eq-ok _ (static_outcome bandwidth truth) e in
      let (rest, er, e2) = >>=-eq-ok _ (run_static bandwidth truths) e1 in
      rw (← ok-injective e2)
        (static_outcome-IsTrue bandwidth truth o eo, run_static-IsTrue bandwidth truths rest er)

  module _ {L N : Type 0} (learner : Learner F L) where
    pub adaptive_outcome-IsTrue :
        (probe_every : ℤ) (s : AdaptiveState L N) (truth : Scenario F) (o : Outcome)
        → adaptive_outcome learner probe_every s truth ≡ ok o
        → IsTrue truth o × (o.executed ≡ executed probe_every s.since_transfer o.believed)
    unfolding adaptive_outcome
    adaptive_outcome-IsTrue probe_every s truth o e =
        let belief = believed learner s.learner truth in
        let startup = learner.startup s.learner in
        let (cs, ec, e1) = >>=-eq-ok _ (estimate belief startup) e in
        let (c, ech, e2) = >>=-eq-ok _ (choose_lowest_ttft cs) e1 in
        let (real, b, x) = record_outcome-IsTrue belief truth startup c.action _ e2 in
        (real, rw b x)

    module _ (observe : N → F → F × N) where
      -- What the loop returns when it succeeds on a first scenario.
      pub adaptive_loop-cons :
          (probe_every : ℤ) (s : AdaptiveState L N) (truth : Scenario F)
          (truths : List (Scenario F)) {os : List Outcome} {s' : AdaptiveState L N}
          → adaptive_loop learner observe probe_every s (truth ∷ truths) ≡ (ok os, s')
          → (o : Outcome) × (rest : List Outcome) × (adaptive_outcome learner probe_every s truth
              ≡ ok o)
            × (adaptive_loop learner observe probe_every
                  (adaptive_next learner observe s truth o.executed)
                  truths
                ≡ (ok rest, s'))
            × (os ≡ o ∷ rest)
      unfolding adaptive_loop
      adaptive_loop-cons probe_every s truth truths {os} {s'} e =
          elim (Result-cases (adaptive_outcome learner probe_every s truth)) [
            | inr (x, ex) ↦ absurd (err-ne-ok (rw (ex, adaptive_loop) at e))
            | inl (o, eo) ↦
                let (rest, er, eos) = prepend-eq-ok o _ (rw (eo, adaptive_loop) at e) in
                (o, rest, eo, er, eos)
          ]
