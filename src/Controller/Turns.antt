-- ===== src/Controller/Turns.antt =====
-- What one request does to the counter, the path's mark and the learner.
use kvflow.Prelude.{◌≡◌, inl, inr, arith, ◌+◌, Bool-cases, sym, refl, ap, ◌∙◌, or-false}
use kvflow.Float64.{Float64}
use kvflow.Controller.{
  Env, Config, RunState, RunResult, next, turn, take_turn, after_call, is_called, plan, Learner, ℕ,
  Scenario, false, ℤ, none, Action, CallError, true, prefix_bytes, failed, is_rejection, some,
  replied, Reply, ok, Wait, Result, mul64, pos, started, err, cut_off, nought,
}

module _ {F L : Type 0} ⦃fl : Float64 F⦄ (learner : Learner F L) (env : Env F) (cfg : Config) where
  -- The three ways in which a request lets the loop go on: no call, a failed one, and a measured one.
  pub data Kind (i : ℕ) (st : RunState L) (s : Scenario F) (r : RunResult F) (st' : RunState L)
      : Type 0 where
    idle :
        is_called s r.action ≡ false
        → r.error ≡ none
        → r.seconds_taken ≡ nought
        → st' ≡ record st { since_transfer = st.since_transfer + 1 }
        → Kind i st s r st'
    broken :
        (e : CallError)
        → is_called s r.action ≡ true
        → env.transfer_call i cfg.peer_addr (prefix_bytes s) cfg.timeout ≡ failed e false
        → is_rejection e.code ≡ false
        → r.error ≡ some e
        → r.seconds_taken ≡ nought
        → st' ≡ record st { since_transfer = 0; down = true }
        → Kind i st s r st'
    measured :
        is_called s r.action ≡ true
        → env.transfer_call i cfg.peer_addr (prefix_bytes s) cfg.timeout ≡ replied r.seconds_taken
        → r.error ≡ none
        → st' ≡ record {
          learner = learner.observe st.learner (fl.of_int (prefix_bytes s)) r.seconds_taken;
          since_transfer = 0;
          down = false;
        }
        → Kind i st s r st'

  -- A call that lets the loop go on failed without a rejection, or was measured.
  after_call-Kind :
      (i : ℕ) (st : RunState L) (s : Scenario F) (r₀ r : RunResult F) (st' : RunState L)
      (reply : Reply F)
      → is_called s r₀.action ≡ true
      → r₀.error ≡ none
      → r₀.seconds_taken ≡ nought
      → env.transfer_call i cfg.peer_addr (prefix_bytes s) cfg.timeout ≡ reply
      → after_call learner st s r₀ reply ≡ next r st'
      → (r.action ≡ r₀.action) × Kind i st s r st'
  unfolding after_call
  after_call-Kind i st s r₀ r st' (replied taken) called clean blank er e =
      let same : record r₀ { seconds_taken = taken } ≡ r = ground arith in
      let action : r.action ≡ r₀.action = sym (ap (λ x. x.action) same) in
      (
        action,
        measured (rw action called) (er ∙ ap replied (ap (λ x. x.seconds_taken) same))
            (sym (ap (λ x. x.error) same) ∙ clean) (ground arith),
      )
  after_call-Kind i st s r₀ r st' (failed x context_ended) called clean blank er e =
      let (going, kept) = or-false context_ended (is_rejection x.code) (ground arith) in
      let same : record r₀ { error = some x } ≡ r = ground arith in
      let action : r.action ≡ r₀.action = sym (ap (λ y. y.action) same) in
      (
        action,
        broken x (rw action called) (er ∙ ap (failed x) going) kept (sym (ap (λ y. y.error) same))
            (sym (ap (λ y. y.seconds_taken) same) ∙ blank) (ground arith),
      )

  take_turn-Kind :
      (i : ℕ) (st : RunState L) (s : Scenario F) (at : ℤ) (choice action : Action) {r : RunResult F}
      {st' : RunState L}
      → take_turn learner env cfg i st s at (choice, action) ≡ next r st'
      → (r.action ≡ action) × Kind i st s r st'
  unfolding take_turn
  take_turn-Kind i st s at choice action {r} {st'} e = elim (Bool-cases (is_called s action)) [
    | inl h ↦ after_call-Kind i st s _ r st' _ h refl refl refl (rw (h, take_turn) at e)
    | inr h ↦
        let e' = rw (h, take_turn) at e in
        let same : r.action ≡ action = ground arith in
        (same, idle (rw same h) (ground arith) (ground arith) (ground arith))
  ]

  -- A request that lets the loop go on took the planned action.
  pub turn-Kind :
      (i : ℕ) (st : RunState L) (s : Scenario F) {r : RunResult F} {st' : RunState L}
      → turn learner env cfg i st s ≡ next r st'
      → (choice : Action) × (plan learner cfg st s ≡ ok (choice, r.action)) × Kind i st s r st'
  unfolding turn
  turn-Kind i st s {r} {st'} e =
      go (env.wait_until i (mul64 (pos i) cfg.interval)) (plan learner cfg st s) refl refl
    where
      go :
          (w : Wait) (p : Result (Action × Action))
          → env.wait_until i (mul64 (pos i) cfg.interval) ≡ w
          → plan learner cfg st s ≡ p
          → (choice : Action) × (plan learner cfg st s ≡ ok (choice, r.action)) × Kind i st s r st'
      go cut_off p ew ep = cc (rw (ew, turn) at e)
      go (started at) (err x) ew ep = cc (rw (ew, ep, turn) at e)
      go (started at) (ok (choice, action)) ew ep =
          let (same, kind) = take_turn-Kind i st s at choice action (rw (ew, ep, turn) at e) in
          (choice, ep ∙ ap (λ a. ok (choice, a)) (sym same), kind)
