-- ===== src/Simulator/Policy.antt =====
-- internal/simulator/simulator.go: `RunStatic`, `RunAdaptive` and `NoisyObserve`. A run over a list of
-- true scenarios threads the learner, the noise of the reports and the probe counter.
use kvflow.Prelude.{
  ℕ, ◌+◌, Bool, not, ◌&&◌, List, [], ◌∷◌, Result, ok, err, ◌>>=◌, invalid_probe, invalid_spread,
  if◌then◌else◌,
}
use kvflow.Int.{ℤ, pos, ltb_ℤ}
use kvflow.Float64.{Float64, ◌⊕◌, ◌⊖◌, ◌⊗◌, ◌⊘◌, nought, one, seconds}
use kvflow.Scheduler.{Action, transfer, action_eq, choose_lowest_ttft}
use kvflow.Learner.{Learner}
use kvflow.Simulator.{Scenario, Outcome, estimate, decide, transfer_duration, record_outcome}

-- The variables of `RunAdaptive` that outlive a request: `l`, what `observe` has captured, and
-- `sinceTransfer`.
pub record AdaptiveState (L N : Type 0) : Type 0 where
  pub learner : L
  pub noise : N
  pub since_transfer : ℕ

-- `probeEvery > 0 && sinceTransfer >= probeEvery`
abbrev pub is_probe_due : ℤ → ℕ → Bool
is_probe_due probe_every since = ltb_ℤ (pos 0) probe_every && not (ltb_ℤ (pos since) probe_every)

-- The outcome of a request, before those of the later requests.
abbrev pub prepend : {S : Type 0} → Outcome → Result (List Outcome) × S → Result (List Outcome) × S
prepend o (rest, s) = (rest >>= λ os. ok (o ∷ os), s)

-- The action that runs: the choice, unless a probe is due.
abbrev pub executed : ℤ → ℕ → Action → Action
executed probe_every since choice = if is_probe_due probe_every since then transfer else choice

module _ {F : Type 0} ⦃fl : Float64 F⦄ where
  -- The belief of the static policy: the truth, with its own bandwidth.
  abbrev pub frozen : F → Scenario F → Scenario F
  frozen bandwidth truth = record truth { bandwidth_bytes_per_sec = bandwidth }

  unfoldable pub static_outcome : F → Scenario F → Result Outcome
  static_outcome bandwidth truth = do
    choice ← decide (frozen bandwidth truth)
    record_outcome (frozen bandwidth truth) (pos 0) truth choice.action choice.action

  unfoldable pub run_static : F → List (Scenario F) → Result (List Outcome)
  run_static bandwidth [] = ok []
  run_static bandwidth (truth ∷ truths) = do
    outcome ← static_outcome bandwidth truth
    outcomes ← run_static bandwidth truths
    ok (outcome ∷ outcomes)

  -- `uniform` draws from the generator: `rng.Float64()`.
  unfoldable pub noisy_observe : {N : Type 0} → (N → F × N) → F → Result (N → F → F × N)
  noisy_observe uniform spread =
      if not (fl.le nought spread && fl.lt spread one)
      then err invalid_spread
      else ok λ rng actual_seconds.
        let (u, rng') = uniform rng in
        (actual_seconds ⊗ (one ⊕ spread ⊗ (fl.of_int (pos 2) ⊗ u ⊖ one)), rng')

  module _ {L : Type 0} (learner : Learner F L) where
    -- The truth, with the learner's bandwidth.
    abbrev pub believed : L → Scenario F → Scenario F
    believed l truth = record truth { bandwidth_bytes_per_sec = one ⊘ learner.seconds_per_byte l }

    -- The request up to the point where its outcome is stored.
    unfoldable pub adaptive_outcome :
        {N : Type 0} → ℤ → AdaptiveState L N → Scenario F → Result Outcome
    adaptive_outcome probe_every s truth =
        let belief = believed s.learner truth in
        let startup = learner.startup s.learner in
        do
          candidates ← estimate belief startup
          choice ← choose_lowest_ttft candidates
          record_outcome belief startup truth choice.action
              (executed probe_every s.since_transfer choice.action)

  module _ {L N : Type 0} (learner : Learner F L) (observe : N → F → F × N) where
    -- What an executed transfer teaches: nothing if it is empty.
    unfoldable pub learn : AdaptiveState L N → Scenario F → AdaptiveState L N
    learn s truth =
        let bytes = fl.of_int truth.request.prefix_tokens ⊗ truth.kv_bytes_per_token in
        let (reported, noise') = observe s.noise (seconds (transfer_duration truth)) in
        if fl.lt nought bytes
        then record {
          learner = learner.observe s.learner bytes reported;
          noise = noise';
          since_transfer = 0;
        }
        else record s { since_transfer = 0 }

    -- The rest of the request: count it, or reset the counter and learn.
    unfoldable pub adaptive_next : AdaptiveState L N → Scenario F → Action → AdaptiveState L N
    unfolding learn
    adaptive_next s truth action =
        if action_eq action transfer
        then learn s truth
        else record s { since_transfer = s.since_transfer + 1 }

    -- The loop. On an error it returns no outcomes; the learner keeps what it has learned.
    unfoldable pub adaptive_loop :
        ℤ → AdaptiveState L N → List (Scenario F) → Result (List Outcome) × AdaptiveState L N
    adaptive_loop probe_every s [] = (ok [], s)
    adaptive_loop probe_every s (truth ∷ truths) =
        elim (adaptive_outcome learner probe_every s truth) [
          | err e ↦ (err e, s)
          | ok o ↦ prepend o (adaptive_loop probe_every (adaptive_next s truth o.executed) truths)
        ]

    unfoldable pub run_adaptive :
        L → N → ℤ → List (Scenario F) → Result (List Outcome) × AdaptiveState L N
    unfolding adaptive_loop
    run_adaptive l noise probe_every truths =
        let s : AdaptiveState L N = record { learner = l; noise = noise; since_transfer = 0 } in
        if ltb_ℤ probe_every (pos 0)
        then (err invalid_probe, s)
        else adaptive_loop probe_every s truths
