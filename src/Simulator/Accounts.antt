-- ===== src/Simulator/Accounts.antt =====
-- What a run of the adaptive policy reports, and what its learner has seen at the end.
use kvflow.Int.{◌<ℤ◌, ◌≤ℤ◌, ltb_ℤ, ltb_ℤ→≤ℤ}
use kvflow.Simulator.Outcomes.{
  record_outcome-IsTrue, IsTrue, adaptive_loop-cons, adaptive_outcome-IsTrue, err-ne-ok,
}
use kvflow.Learner.{Learner}
use kvflow.Scheduler.{Candidate, transfer, action_eq, choose_lowest_ttft}
use kvflow.Scheduler.Choice.{IsFirstFastest, choose_lowest_ttft_iff}
use kvflow.Prelude.{
  refl, ◌≡◌, ◌⊎◌, inl, inr, List, [], ◌∷◌, arith, ok, ℕ, ok-injective, ap, ◌∙◌, Bool-cases,
  if◌then◌else◌, ◌&&◌, ◌+◌, >>=-eq-ok,
}
use kvflow.Float64.{Float64, ◌⊗◌, seconds, nought}
use kvflow.Simulator.{
  estimate, ttft_of, record_outcome, Scenario, Outcome, ℤ, Action, pos, transfer_duration,
}
use kvflow.Simulator.Policy.{
  AdaptiveState, adaptive_outcome, believed, learn, adaptive_next, adaptive_loop, run_adaptive,
  executed, is_probe_due,
}

-- What runs after so many requests without a transfer: a transfer where the probe interval is over, and
-- otherwise what is believed best.
abbrev pub Executes : ℤ → ℕ → Outcome → Type 0
Executes probe_every since o =
    ((o.executed ≡ o.believed) × ((probe_every ≤ℤ pos 0) ⊎ (pos since <ℤ probe_every)))
    ⊎ ((o.executed ≡ transfer) × (pos 0 <ℤ probe_every) × (probe_every ≤ℤ pos since))

executed-Executes :
    (probe_every : ℤ) (since : ℕ) (o : Outcome)
    → o.executed ≡ executed probe_every since o.believed
    → Executes probe_every since o
executed-Executes probe_every since o e = elim (Bool-cases (is_probe_due probe_every since)) [
  | inl h ↦ inr (e ∙ rw h refl, ground arith, ground arith)
  | inr h ↦ inl (e ∙ rw h refl, ground arith)
]

-- The requests without a transfer, after one more.
abbrev pub count : ℕ → Action → ℕ
count since a = if action_eq a transfer then 0 else since + 1

module _ {F : Type 0} ⦃fl : Float64 F⦄ where
  module _ {L N : Type 0} (learner : Learner F L) (observe : N → F → F × N) where
    -- What is left of a state after the counter is forgotten.
    abbrev taught : AdaptiveState L N → L × N
    taught s = (s.learner, s.noise)

    -- One executed action: a transfer that moved bytes is observed, with the reported duration.
    abbrev pub lesson : Scenario F → Action → L × N → L × N
    lesson truth a (l, noise) =
        let bytes = fl.of_int truth.request.prefix_tokens ⊗ truth.kv_bytes_per_token in
        let (reported, noise') = observe noise (seconds (transfer_duration truth)) in
        if action_eq a transfer && fl.lt nought bytes
        then (learner.observe l bytes reported, noise')
        else (l, noise)

    -- The executed actions of a run, in order.
    abbrev pub lessons : List (Scenario F) → List Outcome → L × N → L × N
    lessons [] os known = known
    lessons (truth ∷ truths) [] known = known
    lessons (truth ∷ truths) (o ∷ os) known = lessons truths os (lesson truth o.executed known)

    -- Of the estimates for the truth with the learner's bandwidth and startup, the first of the fastest is
    -- what the outcome says was believed, and the one of the executed action is what it predicted.
    abbrev pub IsBelieved : L → Scenario F → Outcome → Type 0
    IsBelieved l truth o =
        (cs : List Candidate) × (c : Candidate) × (estimate (believed learner l truth)
            (learner.startup l)
          ≡ ok cs)
        × IsFirstFastest cs c
        × (o.believed ≡ c.action)
        × (ttft_of cs o.executed ≡ ok o.predicted)

    -- The outcomes of a run, from a learner and a number of requests without a transfer.
    abbrev pub Honest : ℤ → ℕ → L × N → List (Scenario F) → List Outcome → Type 0
    Honest probe_every since known [] [] = Unit
    Honest probe_every since known [] (o ∷ os) = ⊥
    Honest probe_every since known (truth ∷ truths) [] = ⊥
    Honest probe_every since known (truth ∷ truths) (o ∷ os) =
        IsTrue truth o
        × IsBelieved known.0 truth o
        × Executes probe_every since o
        × Honest probe_every (count since o.executed) (lesson truth o.executed known) truths os

    record_outcome-predicted :
        (belief truth : Scenario F) (startup : ℤ) (choice action : Action) (cs : List Candidate)
        {o : Outcome}
        → estimate belief startup ≡ ok cs
        → record_outcome belief startup truth choice action ≡ ok o
        → ttft_of cs o.executed ≡ ok o.predicted
    unfolding record_outcome
    record_outcome-predicted belief truth startup choice action cs h e = ground (arith, h)

    adaptive_outcome-IsBelieved :
        (probe_every : ℤ) (s : AdaptiveState L N) (truth : Scenario F) (o : Outcome)
        → adaptive_outcome learner probe_every s truth ≡ ok o
        → IsBelieved s.learner truth o
    unfolding adaptive_outcome
    adaptive_outcome-IsBelieved probe_every s truth o e =
        let belief = believed learner s.learner truth in
        let startup = learner.startup s.learner in
        let (cs, ec, e1) = >>=-eq-ok _ (estimate belief startup) e in
        let (c, chosen, e2) = >>=-eq-ok _ (choose_lowest_ttft cs) e1 in
        let (_, b, _) = record_outcome-IsTrue belief truth startup c.action _ e2 in
        (
          cs,
          c,
          ec,
          (choose_lowest_ttft_iff cs c).0.0 chosen,
          b,
          record_outcome-predicted belief truth startup c.action _ cs ec e2,
        )

    taught-next :
        (s : AdaptiveState L N) (truth : Scenario F) (a : Action)
        → taught (adaptive_next learner observe s truth a) ≡ lesson truth a (taught s)
    unfolding adaptive_next
    taught-next s truth a = ground arith

    count-next :
        (s : AdaptiveState L N) (truth : Scenario F) (a : Action)
        → (adaptive_next learner observe s truth a).since_transfer ≡ count s.since_transfer a
    unfolding adaptive_next learn
    count-next s truth a = ground arith

    adaptive_loop-Honest :
        (probe_every : ℤ) (s : AdaptiveState L N) (truths : List (Scenario F)) {os : List Outcome}
        {s' : AdaptiveState L N}
        → adaptive_loop learner observe probe_every s truths ≡ (ok os, s')
        → Honest probe_every s.since_transfer (taught s) truths os
          × (taught s' ≡ lessons truths os (taught s))
    unfolding adaptive_loop
    adaptive_loop-Honest probe_every s [] e =
        rw (← ok-injective (ap (λ r. r.0) e), ← ap (λ r. r.1) e) (tt, refl)
    adaptive_loop-Honest probe_every s (truth ∷ truths) e =
        let (o, rest, eo, er, eos) =
          adaptive_loop-cons learner observe probe_every s truth truths e in
        let (real, x) = adaptive_outcome-IsTrue learner probe_every s truth o eo in
        let next = adaptive_next learner observe s truth o.executed in
        let (m, t) = adaptive_loop-Honest probe_every next truths er in
        let honest : Honest probe_every (count s.since_transfer o.executed)
            (lesson truth o.executed (taught s)) truths rest =
          rw (count-next s truth o.executed, taught-next s truth o.executed) at m in
        rw eos (
          (
            real,
            adaptive_outcome-IsBelieved probe_every s truth o eo,
            executed-Executes probe_every s.since_transfer o x,
            honest,
          ),
          t ∙ ap (lessons truths rest) (taught-next s truth o.executed),
        )

    -- A run that succeeds had a probe interval that is not negative, and has an outcome for each truth, in
    -- order. What it says was believed best is the first of the fastest by the estimates for that truth with the
    -- bandwidth and startup of the learner then, and what it predicted is their time for what was executed.
    -- It executed what was believed best, unless probing is on and as many requests as the interval came
    -- since the start or the last transfer: then it executed a transfer. Its time and regret are the true
    -- ones of what was executed. The learner has observed, request by request and at the end, just the
    -- executed transfers that moved bytes, once each, in order.
    pub run_adaptive-IsHonest :
        (l : L) (noise : N) (probe_every : ℤ) (truths : List (Scenario F)) {os : List Outcome}
        {s : AdaptiveState L N}
        → run_adaptive learner observe l noise probe_every truths ≡ (ok os, s)
        → (pos 0 ≤ℤ probe_every)
          × Honest probe_every 0 (l, noise) truths os
          × ((s.learner, s.noise) ≡ lessons truths os (l, noise))
    unfolding run_adaptive
    run_adaptive-IsHonest l noise probe_every truths e =
        elim (Bool-cases (ltb_ℤ probe_every (pos 0))) [
          | inl h ↦ absurd (err-ne-ok (rw (h, run_adaptive) at e))
          | inr h ↦
              let s : AdaptiveState L N = record {
                learner = l;
                noise = noise;
                since_transfer = 0;
              } in
              let (m, t) = adaptive_loop-Honest probe_every s truths (rw (h, run_adaptive) at e) in
              (ltb_ℤ→≤ℤ probe_every (pos 0) h, m, t)
        ]
