-- ===== src/Controller/Steps.antt =====
-- The requests that a run finished, as a sequence of turns.
use kvflow.Prelude.{
  none, some, ◌≡◌, refl, List, [], ◌∷◌, ◌+◌, ℕ, length, ◌⊎◌, ◌≢◌, Option-cases, ◌<◌, inl, inr, ap,
  sym, suc, arith,
}
use kvflow.Float64.{Float64}
use kvflow.Controller.{
  Error, Cut, Env, Config, RunState, RunResult, Turn, next, stopped, aborted, turn, run_loop, run,
  returned, Loop, Learner, Scenario, completed, false, Option, Stop, config_error, some, bad_input,
  cut, Ending, stopped_by, aborted_by,
}

pub returned-results :
    {F L : Type 0} (loop : Loop F L) {rs : List (RunResult F)} {e : Option Stop}
    → returned loop ≡ (rs, e)
    → (rs ≡ []) ⊎ (loop.results ≡ rs)
unfolding returned
returned-results loop e = ground arith

-- How many results a run returns with each error.
abbrev pub Counted : {A B : Type 0} → List A → List B → Option Stop → Type 0
Counted ss rs none = length rs ≡ length ss
Counted ss rs (some (bad_input x)) = rs ≡ []
Counted ss rs (some (cut x)) = length rs < length ss

returned-Counted :
    {A F L : Type 0} (ss : List A) (loop : Loop F L) (ending : Ending)
    → loop.ending ≡ ending
    → ((loop.ending ≡ completed) × (length loop.results ≡ length ss))
      ⊎ ((loop.ending ≢ completed) × (length loop.results < length ss))
    → Counted ss (returned loop).0 (returned loop).1
unfolding returned
returned-Counted ss loop completed e (inl (c, l)) = rw e l
returned-Counted ss loop completed e (inr (c, l)) = absurd (c e)
returned-Counted ss loop (stopped_by x) e (inl (c, l)) = cc
returned-Counted ss loop (stopped_by x) e (inr (c, l)) = rw e l
returned-Counted ss loop (aborted_by x) e h = rw e refl

abbrev pub start : {L : Type 0} → L → RunState L
start l = record { learner = l; since_transfer = 0; down = false }

module _ {F L : Type 0} ⦃fl : Float64 F⦄ (learner : Learner F L) (env : Env F) (cfg : Config) where
  -- From index `i` and state `st` the turns of the first scenarios gave these results, and the learner
  -- at the end.
  pub data Steps : ℕ → RunState L → List (Scenario F) → List (RunResult F) → L → Type 0 where
    halt : {i : ℕ} {st : RunState L} {ss : List (Scenario F)} → Steps i st ss [] st.learner
    go_on :
        {i : ℕ} {st st' : RunState L} {s : Scenario F} {ss : List (Scenario F)} {r : RunResult F}
        {rs : List (RunResult F)} {l : L}
        → turn learner env cfg i st s ≡ next r st'
        → Steps (i + 1) st' ss rs l
        → Steps i st (s ∷ ss) (r ∷ rs) l

  pub run_loop-Steps :
      (i : ℕ) (st : RunState L) (ss : List (Scenario F))
      → let loop = run_loop learner env cfg i st ss in Steps i st ss loop.results loop.final
  unfolding run_loop
  run_loop-Steps i st [] = halt
  run_loop-Steps i st (s ∷ ss) =
      go (turn learner env cfg i st s) refl (λ st'. run_loop-Steps (i + 1) st' ss)
    where
      go :
          (t : Turn F L)
          → turn learner env cfg i st s ≡ t
          → ((st' : RunState L)
              → let loop = run_loop learner env cfg (i + 1) st' ss in
                Steps (i + 1) st' ss loop.results loop.final)
          → let loop = run_loop learner env cfg i st (s ∷ ss) in
            Steps i st (s ∷ ss) loop.results loop.final
      go (next r st') e ih = rw (e, run_loop) (go_on e (ih st'))
      go (stopped x) e ih = rw (e, run_loop) halt
      go (aborted x) e ih = rw (e, run_loop) halt

  -- A loop that completes has a result for each scenario, another one has fewer.
  run_loop-length :
      (i : ℕ) (st : RunState L) (ss : List (Scenario F))
      → let loop = run_loop learner env cfg i st ss in
        ((loop.ending ≡ completed) × (length loop.results ≡ length ss))
        ⊎ ((loop.ending ≢ completed) × (length loop.results < length ss))
  unfolding run_loop
  run_loop-length i st [] = inl (refl, refl)
  run_loop-length i st (s ∷ ss) =
      go (turn learner env cfg i st s) refl (λ st'. run_loop-length (i + 1) st' ss)
    where
      go :
          (t : Turn F L)
          → turn learner env cfg i st s ≡ t
          → ((st' : RunState L)
              → let loop = run_loop learner env cfg (i + 1) st' ss in
                ((loop.ending ≡ completed) × (length loop.results ≡ length ss))
                ⊎ ((loop.ending ≢ completed) × (length loop.results < length ss)))
          → let loop = run_loop learner env cfg i st (s ∷ ss) in
            ((loop.ending ≡ completed) × (length loop.results ≡ length (s ∷ ss)))
            ⊎ ((loop.ending ≢ completed) × (length loop.results < length (s ∷ ss)))
      go (next r st') e ih =
          rw (e, run_loop)
            (elim (ih st') [ inl (c, l) ↦ inl (c, ap suc l) | inr (c, l) ↦ inr (c, omega arith) ])
      go (stopped x) e ih = rw (e, run_loop) (inr (λ c. cc, omega arith))
      go (aborted x) e ih = rw (e, run_loop) (inr (λ c. cc, omega arith))

  -- The results of a run are none, or those of the turns that were taken.
  pub run-Steps :
      (l : L) (ss : List (Scenario F)) {rs : List (RunResult F)} {e : Option Stop}
      → run learner env cfg l ss ≡ (rs, e)
      → (rs ≡ []) ⊎ ((l' : L) × Steps 0 (start l) ss rs l')
  unfolding run
  run-Steps l ss {rs} {e} h = elim (Option-cases (config_error cfg)) [
    | inr (x, ex) ↦ inl (sym (ap (λ p. p.0) (rw (ex, run) at h)))
    | inl fine ↦
        let loop = run_loop learner env cfg 0 (start l) ss in
        elim (returned-results loop (rw (fine, run) at h)) [
          | inl none_ ↦ inl none_
          | inr same ↦
              let steps = run_loop-Steps 0 (start l) ss in inr (loop.final, rw same at steps)
        ]
  ]

  -- From index `i` and state `st` the turns of the scenarios came to this end: each of the first gave its
  -- result and made the state for the next one, and then there was no scenario left, or a turn was stopped
  -- or aborted.
  pub data Finished
      : ℕ → RunState L → List (Scenario F) → List (RunResult F) → Ending → Type 0 where
    all_done : {i : ℕ} {st : RunState L} → Finished i st [] [] completed
    stops :
        {i : ℕ} {st : RunState L} {s : Scenario F} {ss : List (Scenario F)} {x : Cut}
        → turn learner env cfg i st s ≡ stopped x
        → Finished i st (s ∷ ss) [] (stopped_by x)
    aborts :
        {i : ℕ} {st : RunState L} {s : Scenario F} {ss : List (Scenario F)} {x : Error}
        → turn learner env cfg i st s ≡ aborted x
        → Finished i st (s ∷ ss) [] (aborted_by x)
    goes_on :
        {i : ℕ} {st st' : RunState L} {s : Scenario F} {ss : List (Scenario F)} {r : RunResult F}
        {rs : List (RunResult F)} {ending : Ending}
        → turn learner env cfg i st s ≡ next r st'
        → Finished (i + 1) st' ss rs ending
        → Finished i st (s ∷ ss) (r ∷ rs) ending

  run_loop-Finished :
      (i : ℕ) (st : RunState L) (ss : List (Scenario F))
      → let loop = run_loop learner env cfg i st ss in Finished i st ss loop.results loop.ending
  unfolding run_loop
  run_loop-Finished i st [] = all_done
  run_loop-Finished i st (s ∷ ss) =
      go (turn learner env cfg i st s) refl (λ st'. run_loop-Finished (i + 1) st' ss)
    where
      go :
          (t : Turn F L)
          → turn learner env cfg i st s ≡ t
          → ((st' : RunState L)
              → let loop = run_loop learner env cfg (i + 1) st' ss in
                Finished (i + 1) st' ss loop.results loop.ending)
          → let loop = run_loop learner env cfg i st (s ∷ ss) in
            Finished i st (s ∷ ss) loop.results loop.ending
      go (next r st') e ih = rw (e, run_loop) (goes_on e (ih st'))
      go (stopped x) e ih = rw (e, run_loop) (stops e)
      go (aborted x) e ih = rw (e, run_loop) (aborts e)

  -- The results that a run returns with each error.
  abbrev pub Returned : L → List (Scenario F) → List (RunResult F) → Option Stop → Type 0
  Returned l ss rs none = Finished 0 (start l) ss rs completed
  Returned l ss rs (some (bad_input x)) =
      (rs ≡ [])
      × ((config_error cfg ≡ some x)
          ⊎ ((finished : List (RunResult F)) × Finished 0 (start l) ss finished (aborted_by x)))
  Returned l ss rs (some (cut x)) = Finished 0 (start l) ss rs (stopped_by x)

  loop-Returned :
      (l : L) (ss : List (Scenario F)) (loop : Loop F L) (ending : Ending)
      → loop.ending ≡ ending
      → Finished 0 (start l) ss loop.results ending
      → Returned l ss (returned loop).0 (returned loop).1
  unfolding returned
  loop-Returned l ss loop completed e done = rw e done
  loop-Returned l ss loop (stopped_by x) e done = rw e done
  loop-Returned l ss loop (aborted_by x) e done = rw e (refl, inr (loop.results, done))

  -- A run without an error has the results of the turns of all scenarios, in order, one for each. A run that
  -- the context or a call cut short has just the results of the turns before the one that was cut, in order,
  -- fewer than the scenarios. A run with bad settings has none, nor has one whose turns came to a scenario
  -- that the turn refuses: it returns that turn's error.
  pub run-Counted :
      (l : L) (ss : List (Scenario F))
      → let (rs, e) = run learner env cfg l ss in Counted ss rs e × Returned l ss rs e
  unfolding run
  run-Counted l ss = elim (Option-cases (config_error cfg)) [
    | inr (x, ex) ↦ rw (ex, run) (refl, (refl, inl ex))
    | inl fine ↦
        let loop = run_loop learner env cfg 0 (start l) ss in
        rw (fine, run)
          (
            returned-Counted ss loop loop.ending refl (run_loop-length 0 (start l) ss),
            loop-Returned l ss loop loop.ending refl (run_loop-Finished 0 (start l) ss),
          )
  ]
