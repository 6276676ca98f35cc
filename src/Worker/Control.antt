-- ===== src/Worker/Control.antt =====
-- The controller of internal/controller/controller.go against workers of internal/worker/worker.go.
use kvflow.Int.{mul64, pos}
use kvflow.Controller.Steps.{start}
use kvflow.Scheduler.{Action}
use kvflow.Prelude.{
  [], ◌∷◌, some, refl, inl, inr, true, false, Bool, ℕ, ◌≡◌, List, Result, ◌+◌, arith, Bool-cases,
  ◌∙◌, ap, Option-cases, err, ok, length,
}
use Prim.Native.String.{String}
use text.Mathlib.Text.{◌==◌ as str_eq}
use kvflow.Float64.{Float64}
use kvflow.Learner.{Learner}
use kvflow.Simulator.{Scenario}
use kvflow.Controller.{
  CallError, Reply, replied, failed, Env, Config, RunState, RunResult, Turn, next, stopped, aborted,
  cut, call, completed, stopped_by, aborted_by, returned, is_called, prefix_bytes, after_call,
  take_turn, turn, run_loop, run, plan, config_error, Ending, Wait, started, cut_off,
}
use kvflow.Worker.{
  WorkerState, TransferRequest, Call, Answer, answered, refused, transfer, member, is_malformed, ℤ,
}
use kvflow.Worker.Codes.{IsAccepted, transfer_codes}

-- What the controller sees of a worker's answer: gRPC's text of the error, and whether its context had
-- ended by then.
abbrev pub reply_of : {F : Type 0} → String → Bool → Answer F → Reply F
reply_of text context_ended (answered seconds) = replied seconds
reply_of text context_ended (refused code) =
    failed (record { code = code; text = text }) context_ended

-- Each call of the controller goes to a worker, whose allowlist has the peer.
pub record IsServed {F : Type 0} (env : Env F) (cfg : Config) (context_ended : ℕ → Bool)
    : Type 0 where
  pub worker : ℕ → WorkerState
  pub call : ℕ → Call F
  pub text : ℕ → String
  pub calls_worker :
      (i : ℕ) (bytes : ℤ)
      → env.transfer_call i cfg.peer_addr bytes cfg.timeout
        ≡ reply_of
            (text i)
            (context_ended i)
            (transfer
              (worker i)
              (record { peer_addr = cfg.peer_addr; bytes = bytes })
              (call i)).answer
  pub has_peer : str_eq cfg.peer_addr "" ≡ false
  pub peer_allowed : (i : ℕ) → member cfg.peer_addr (worker i).allowed ≡ true

module _ {F L : Type 0} ⦃fl : Float64 F⦄ (learner : Learner F L) (env : Env F) (cfg : Config)
    (context_ended : ℕ → Bool) (served : IsServed env cfg context_ended) where
  -- The answer to a call of the controller is no rejection.
  called-IsAccepted :
      (i : ℕ) (s : Scenario F) (a : Action)
      → is_called s a ≡ true
      → IsAccepted
          (transfer
            (served.worker i)
            (record { peer_addr = cfg.peer_addr; bytes = prefix_bytes s })
            (served.call i)).answer
  called-IsAccepted i s a c =
      let r : TransferRequest = record { peer_addr = cfg.peer_addr; bytes = prefix_bytes s } in
      let fine : is_malformed r ≡ false = ground (arith, served.has_peer) in
      (transfer_codes (served.worker i) r (served.call i)).2 fine (served.peer_allowed i)

  reply_stops :
      (st : RunState L) (s : Scenario F) (r : RunResult F) (text : String) (context_ended : Bool)
      (answer : Answer F) (e : CallError)
      → IsAccepted answer
      → after_call learner st s r (reply_of text context_ended answer) ≡ stopped (call e)
      → context_ended ≡ true
  unfolding after_call
  reply_stops st s r text b (answered t) e accepted h = cc
  reply_stops st s r text true (refused code) e accepted h = refl
  reply_stops st s r text false (refused code) e accepted h = cc (rw (accepted, after_call) at h)

  take_turn_stops :
      (i : ℕ) (st : RunState L) (s : Scenario F) (at : ℤ) (choice action : Action) (e : CallError)
      → take_turn learner env cfg i st s at (choice, action) ≡ stopped (call e)
      → context_ended i ≡ true
  unfolding take_turn
  take_turn_stops i st s at choice action e h = elim (Bool-cases (is_called s action)) [
    | inl c ↦
        reply_stops st s _ (served.text i) (context_ended i) _ e (called-IsAccepted i s action c)
          (rw (c, take_turn, served.calls_worker i (prefix_bytes s)) at h)
    | inr c ↦ cc (rw (c, take_turn) at h)
  ]

  turn_stops :
      (i : ℕ) (st : RunState L) (s : Scenario F) (e : CallError)
      → turn learner env cfg i st s ≡ stopped (call e)
      → context_ended i ≡ true
  unfolding turn
  turn_stops i st s e h =
      go (env.wait_until i (mul64 (pos i) cfg.interval)) (plan learner cfg st s) refl refl
    where
      go :
          (w : Wait) (p : Result (Action × Action))
          → env.wait_until i (mul64 (pos i) cfg.interval) ≡ w
          → plan learner cfg st s ≡ p
          → context_ended i ≡ true
      go cut_off p ew ep = cc (rw (ew, turn) at h)
      go (started at) (err x) ew ep = cc (rw (ew, ep, turn) at h)
      go (started at) (ok (choice, action)) ew ep =
          take_turn_stops i st s at choice action e (rw (ew, ep, turn) at h)

  run_loop_stops :
      (i j : ℕ) (st : RunState L) (ss : List (Scenario F)) (e : CallError)
      → (run_loop learner env cfg i st ss).ending ≡ stopped_by (call e)
      → j ≡ i + length (run_loop learner env cfg i st ss).results
      → context_ended j ≡ true
  unfolding run_loop
  run_loop_stops i j st [] e h k = cc
  run_loop_stops i j st (s ∷ ss) e h k =
      go (turn learner env cfg i st s) refl (λ st'. run_loop_stops (i + 1) j st' ss e)
    where
      go :
          (t : Turn F L)
          → turn learner env cfg i st s ≡ t
          → ((st' : RunState L)
              → (run_loop learner env cfg (i + 1) st' ss).ending ≡ stopped_by (call e)
              → j ≡ i + 1 + length (run_loop learner env cfg (i + 1) st' ss).results
              → context_ended j ≡ true)
          → context_ended j ≡ true
      go (next r st') q ih =
          let k' = rw (q, run_loop) at k in ih st' (rw (q, run_loop) at h) (omega (arith, k'))
      go (stopped x) q ih =
          let same : stopped x ≡ stopped (call e) = cc (rw (q, run_loop) at h) in
          let k' = rw (q, run_loop) at k in
          let here : j ≡ i = omega (arith, k') in rw here (turn_stops i st s e (q ∙ same))
      go (aborted x) q ih = cc (rw (q, run_loop) at h)

  -- A controller whose calls reach workers that allow its peer is never turned away by them: a run that
  -- stops at an error of a call stops because the context had ended in the request after those with
  -- results.
  pub run_served :
      (l : L) (ss : List (Scenario F)) (rs : List (RunResult F)) (e : CallError)
      → run learner env cfg l ss ≡ (rs, some (cut (call e)))
      → context_ended (length rs) ≡ true
  unfolding run returned
  run_served l ss rs e h = elim (Option-cases (config_error cfg)) [
    | inr (x, q) ↦ cc (ap (λ p. p.1) (rw (q, run) at h))
    | inl q ↦
        let loop = run_loop learner env cfg 0 (start l) ss in
        ending_stops loop.ending refl (rw (q, run) at h)
  ]
    where
      ending_stops :
          (ending : Ending)
          → (run_loop learner env cfg 0 (start l) ss).ending ≡ ending
          → returned (run_loop learner env cfg 0 (start l) ss) ≡ (rs, some (cut (call e)))
          → context_ended (length rs) ≡ true
      ending_stops completed q z = cc (ap (λ p. p.1) (rw (q, returned) at z))
      ending_stops (aborted_by x) q z = cc (ap (λ p. p.1) (rw (q, returned) at z))
      ending_stops (stopped_by x) q z =
          let z' = rw (q, returned) at z in
          let same : x ≡ call e = cc (ap (λ p. p.1) z') in
          run_loop_stops 0 (length rs) (start l) ss e (q ∙ ap stopped_by same)
            (omega (arith, ap (λ p. length p.0) z'))
