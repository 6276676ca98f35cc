-- ===== src/Controller/Lessons.antt =====
-- What the results say of the worker's replies, and what the learner has seen at the end of a run.
use kvflow.Prelude.{
  ◌≡◌, refl, List, [], ◌∷◌, ◌+◌, ℕ, inl, inr, ◌∙◌, ◌⊎◌, ap, if◌then◌else◌, ◌&&◌, is_some,
}
use kvflow.Float64.{Float64, nought}
use kvflow.Controller.{
  Env, Config, RunState, RunResult, prefix_bytes, run_loop, is_called, Learner, Scenario, false,
  none, CallError, true, failed, some, replied, not,
}
use kvflow.Controller.Turns.{Kind, idle, broken, measured, turn-Kind}
use kvflow.Controller.Steps.{Steps, halt, go_on, start, run_loop-Steps}

module _ {F : Type 0} ⦃fl : Float64 F⦄ where
  -- A result against the reply of the worker to its request, of index `i`: a request that did not
  -- call has no error and no time; a call that failed has its error and no time; another has the
  -- time of the reply.
  abbrev pub IsReported : Env F → Config → ℕ → Scenario F → RunResult F → Type 0
  IsReported env cfg i s r =
      let reply = env.transfer_call i cfg.peer_addr (prefix_bytes s) cfg.timeout in
      ((is_called s r.action ≡ false) × (r.error ≡ none) × (r.seconds_taken ≡ nought))
      ⊎ (((e : CallError) × (is_called s r.action ≡ true)
            × (reply ≡ failed e false)
            × (r.error ≡ some e)
            × (r.seconds_taken ≡ nought))
          ⊎ ((is_called s r.action ≡ true) × (reply ≡ replied r.seconds_taken) × (r.error ≡ none)))

  abbrev pub AllReported : Env F → Config → ℕ → List (RunResult F) → List (Scenario F) → Type 0
  AllReported env cfg i [] ss = Unit
  AllReported env cfg i (r ∷ rs) [] = ⊥
  AllReported env cfg i (r ∷ rs) (s ∷ ss) =
      IsReported env cfg i s r × AllReported env cfg (i + 1) rs ss

module _ {F L : Type 0} ⦃fl : Float64 F⦄ where
  -- A measured transfer is observed, and nothing else.
  abbrev pub lesson : Learner F L → Scenario F → RunResult F → L → L
  lesson learner s r l =
      if is_called s r.action && not (is_some r.error)
      then learner.observe l (fl.of_int (prefix_bytes s)) r.seconds_taken
      else l

  abbrev pub lessons : Learner F L → List (RunResult F) → List (Scenario F) → L → L
  lessons learner [] ss l = l
  lessons learner (r ∷ rs) [] l = l
  lessons learner (r ∷ rs) (s ∷ ss) l = lessons learner rs ss (lesson learner s r l)

  module _ (learner : Learner F L) (env : Env F) (cfg : Config) where
    Kind-lesson :
        (i : ℕ) (st st' : RunState L) (s : Scenario F) (r : RunResult F)
        → Kind learner env cfg i st s r st'
        → IsReported env cfg i s r × (st'.learner ≡ lesson learner s r st.learner)
    Kind-lesson i st st' s r (idle c n z e) = (inl (c, n, z), rw (e, c))
    Kind-lesson i st st' s r (broken x c y _ n z e) = (inr (inl (x, c, y, n, z)), rw (e, c, n))
    Kind-lesson i st st' s r (measured c y n e) = (inr (inr (c, y, n)), rw (e, c, n))

    Steps-lessons :
        {i : ℕ} {st : RunState L} {ss : List (Scenario F)} {rs : List (RunResult F)} {l : L}
        → Steps learner env cfg i st ss rs l
        → AllReported env cfg i rs ss × (l ≡ lessons learner rs ss st.learner)
    Steps-lessons halt = (tt, refl)
    Steps-lessons
          (go_on {i = i} {st = st} {st' = st'} {s = s} {ss = ss} {r = r} {rs = rs} e steps) =
        let (choice, planned, kind) = turn-Kind learner env cfg i st s e in
        let (reported, taught) = Kind-lesson i st st' s r kind in
        let (all, known) = Steps-lessons steps in
        ((reported, all), known ∙ ap (lessons learner rs ss) taught)

    -- Every result of the loop tells how the worker answered that request: no call, the error of a
    -- failed one, or the measured time. The learner at the end has observed just the measured
    -- transfers, in order, so a failed transfer teaches nothing.
    pub run_loop_teaches :
        (l : L) (ss : List (Scenario F))
        → let loop = run_loop learner env cfg 0 (start l) ss in
          AllReported env cfg 0 loop.results ss × (loop.final ≡ lessons learner loop.results ss l)
    run_loop_teaches l ss = Steps-lessons (run_loop-Steps learner env cfg 0 (start l) ss)
