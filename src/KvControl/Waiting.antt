-- ===== src/KvControl/Waiting.antt =====
-- kvcontrol's requests never wait at the source: its queue there is an hour long.
use kvflow.Prelude.{
  ℕ, suc, zero, ◌<◌, ◌≡◌, ◌≢◌, refl, sym, ap, ◌∙◌, true, false, List, ok, All, Bool-cases, inl, inr,
  arith, ok-injective, >>=-eq-ok,
}
use kvflow.Int.{ℤ, pos, ltb_ℤ, max_ℤ, add64, add64_exact, pos_part, ◌+ℤ◌}
use kvflow.Float64.{Float64, IsIeee, ◌⊘◌, ◌⊗◌, ◌⊕◌, one, nought, second, seconds}
use kvflow.Scheduler.{Action, wait, action_eq, Candidate, choose_lowest_ttft, choose_from}
use kvflow.CostModel
use kvflow.CostModel.{
  Inputs, duration_for, transfer_time, suffix_b, plans, suffix_a, prefix_and_suffix_b, is_refused,
}
use kvflow.CostModel.Validity.{in_order}
use kvflow.Learner.{Learner}
use kvflow.Simulator.{Scenario, inputs}
use kvflow.Simulator.Workload.{stable}
use kvflow.Simulator.Policy.{believed}
use kvflow.Controller.{
  RunState, Config, Env, RunResult, plan, pick_action, best_without_transfer, without_transfer, run,
}
use kvflow.Controller.Steps.{Steps, halt, go_on, run-Steps}
use kvflow.Controller.Turns.{turn-Kind}
use kvflow.KvControl.{scenario, hour}

module _ (t d : ℤ) (short : ltb_ℤ d hour ≡ true) where
  -- Recomputing beats waiting, whatever a transfer takes.
  choice-ne-wait : {c : Candidate} → choose_lowest_ttft (in_order hour t d) ≡ ok c → c.action ≢ wait
  unfolding choose_lowest_ttft choose_from
  choice-ne-wait e w = ground arith

  best_without_transfer-ne-wait :
      (a : Action) → best_without_transfer (in_order hour t d) ≡ ok a → a ≢ wait
  unfolding best_without_transfer without_transfer choose_lowest_ttft choose_from action_eq
  best_without_transfer-ne-wait a e w = ground arith

  pick_action-ne-wait :
      (cfg : Config) {L : Type 0} (st : RunState L) {c : Candidate} (a : Action)
      → choose_lowest_ttft (in_order hour t d) ≡ ok c
      → pick_action cfg.probe_every st.since_transfer st.down (in_order hour t d) c.action ≡ ok a
      → a ≢ wait
  unfolding pick_action
  pick_action-ne-wait cfg st a e p w =
      ground (arith, choice-ne-wait e, best_without_transfer-ne-wait a)

-- The nanoseconds that the cost model gives to recomputing the prefix.
abbrev pub recompute_time : (F : Type 0) ⦃fl : Float64 F⦄ → ℤ → ℤ
recompute_time F ⦃fl⦄ span =
    duration_for (fl.of_int (pos 1) ⊕ fl.of_int (pos 0)) (one ⊘ seconds {F = F} span)

module _ {F : Type 0} ⦃fl : Float64 F⦄ (laws : IsIeee F) where
  no_time : duration_for {F = F} nought one ≡ pos 0
  unfolding duration_for
  no_time =
      let number : fl.is_nan nought ≡ false = ground (arith, laws.of_int_finite (pos 0)) in
      let same : nought ⊘ one ≡ nought = laws.div_one nought number in
      let zero_ : nought ⊗ second ≡ nought =
        laws.zero_mul second (laws.of_int_pos 999_999_999)
          (laws.of_int_finite (pos 1_000_000_000)) in
      ap (λ x. fl.to_int (x ⊗ second)) same
      ∙ ap fl.to_int zero_
      ∙ laws.to_int-of_int 0 (omega arith)

  -- A time, added to none.
  hour_alone : add64 hour (duration_for {F = F} nought one) ≡ hour
  unfolding ◌+ℤ◌
  hour_alone =
      ap (add64 hour) no_time ∙ add64_exact hour (pos 0) (omega arith) (omega arith) ∙ ground arith

  none_before : (d : ℕ) → d < pos_part hour → add64 (pos 0) (pos d) ≡ pos d
  unfolding ◌+ℤ◌
  none_before d h = add64_exact (pos 0) (pos d) (omega arith) (omega arith) ∙ ground arith

  module _ {L : Type 0} (learner : Learner F L) (bytes span : ℤ) (d : ℕ)
      (time : recompute_time F span ≡ pos d) (short : d < pos_part hour) where
    abbrev asked : L → Inputs F
    asked l = inputs (believed learner l (scenario bytes span)) (learner.startup l)

    plans-in_order : (l : L) → (t : ℤ) × (plans (asked l) ≡ in_order hour t (pos d))
    unfolding plans suffix_a prefix_and_suffix_b scenario
    plans-in_order l =
        let rebuilt : add64 (pos 0) (recompute_time F span) ≡ pos d =
          ap (add64 (pos 0)) time ∙ none_before d short in
        let i = asked l in
        let t = add64 (max_ℤ i.queue_b (transfer_time i)) (suffix_b i) in
        (
          t,
          ap (λ w. in_order w t (add64 (pos 0) (recompute_time F span))) hour_alone
              ∙ ap (in_order hour t) rebuilt,
        )

    estimate-plans :
        (i : Inputs F) {cs : List Candidate} → CostModel.estimate i ≡ ok cs → plans i ≡ cs
    unfolding CostModel.estimate
    estimate-plans i e = elim (Bool-cases (is_refused i)) [
      | inl bad ↦ cc (rw (bad, CostModel.estimate) at e)
      | inr fine ↦ ok-injective (rw (fine, CostModel.estimate) at e)
    ]

    plan-ne-wait :
        (cfg : Config) (st : RunState L) (choice action : Action)
        → plan learner cfg st (scenario bytes span) ≡ ok (choice, action)
        → action ≢ wait
    unfolding plan
    plan-ne-wait cfg st choice action e =
        let i = asked st.learner in
        let (t, listed) = plans-in_order st.learner in
        let (cs, est, e1) = >>=-eq-ok _ (CostModel.estimate i) e in
        let (c, chosen, e2) = >>=-eq-ok _ (choose_lowest_ttft cs) e1 in
        let (a, picked, e3) =
          >>=-eq-ok _ (pick_action cfg.probe_every st.since_transfer st.down cs c.action) e2 in
        let same : a ≡ action = ap (λ p. p.1) (ok-injective e3) in
        let all : cs ≡ in_order hour t (pos d) = sym (estimate-plans i est) ∙ listed in
        pick_action-ne-wait t (pos d) (ground arith) cfg st action (rw all at chosen)
          (rw (all, same) at picked)

    Steps-ne-wait :
        (env : Env F) (cfg : Config) {i : ℕ} {st : RunState L} {ss : List (Scenario F)}
        {rs : List (RunResult F)} {l : L}
        → Steps learner env cfg i st ss rs l
        → All (λ s. s ≡ scenario bytes span) ss
        → All (λ r. r.action ≢ wait) rs
    Steps-ne-wait env cfg halt h = tt
    Steps-ne-wait env cfg {i} {st} (go_on {s} {r} e steps) (same, h) =
        let (choice, planned, _) = turn-Kind learner env cfg i st s e in
        (plan-ne-wait cfg st choice r.action (rw same at planned), Steps-ne-wait env cfg steps h)

    All-scenario :
        (n : ℕ)
        → All (λ s. s ≡ scenario {F = F} bytes span) (stable {F = F} n (scenario bytes span))
    All-scenario zero = tt
    All-scenario (suc n) = (refl, All-scenario n)

    -- Where the arithmetic gives recomputing a time below the hour of the source's queue, no request of a
    -- run over kvcontrol's scenarios waits at the source, whatever the learner believes, the worker answers
    -- and the probe interval is: every result is of another action.
    pub run-ne-wait :
        (env : Env F) (cfg : Config) (l : L) (n : ℕ)
        → All (λ r. r.action ≢ wait) (run learner env cfg l (stable n (scenario bytes span))).0
    run-ne-wait env cfg l n =
        elim (run-Steps learner env cfg l (stable n (scenario bytes span)) refl) [
          | inl nothing ↦ rw nothing tt
          | inr (l', steps) ↦ Steps-ne-wait env cfg steps (All-scenario n)
        ]
