-- ===== src/Controller/Backoff.antt =====
-- After a failed transfer the worker is left alone until a probe is due.
use kvflow.Int.{◌<ℤ◌, ◌≤ℤ◌}
use kvflow.Scheduler.Choice.{choose_lowest_ttft_iff}
use native.Mathlib.Numerals.{add-one}
use Prim.Native.Nat.add
use kvflow.CostModel
use kvflow.Prelude.{
  ◌≡◌, refl, true, false, List, [], ◌∷◌, zero, suc, ◌⊎◌, inl, inr, some, none, ℕ, ok, arith, All,
  Bool-cases, >>=-eq-ok, ok-injective, All-get_elem?, ap, is_some, get_elem?, ◌<◌, ◌+◌,
}
use kvflow.Float64.{Float64}
use kvflow.Controller.{
  Env, Config, RunState, RunResult, pick_action, best_without_transfer, without_transfer, plan,
  Candidate, ℤ, Learner, action_eq, Action, Scenario, transfer, is_probe_due, choose_lowest_ttft,
  inputs, believed, pos, Bool, is_called, CallError, Option, Stop, run,
}
use kvflow.Controller.Turns.{Kind, idle, broken, measured, turn-Kind}
use kvflow.Controller.Steps.{Steps, halt, go_on, run-Steps}

abbrev NoTransfer : Candidate → Type 0
NoTransfer c = action_eq c.action transfer ≡ false

without_transfer-NoTransfer : (cs : List Candidate) → All NoTransfer (without_transfer cs)
unfolding without_transfer
without_transfer-NoTransfer [] = tt
without_transfer-NoTransfer (c ∷ cs) = elim (Bool-cases (action_eq c.action transfer)) [
  | inl h ↦ rw h (without_transfer-NoTransfer cs)
  | inr h ↦ rw h (h, without_transfer-NoTransfer cs)
]

-- The best other action is not a transfer.
best_without_transfer-ne :
    (cs : List Candidate) (a : Action)
    → best_without_transfer cs ≡ ok a
    → action_eq a transfer ≡ false
unfolding best_without_transfer
best_without_transfer-ne cs a e =
    let (c, ec, ea) = >>=-eq-ok _ (choose_lowest_ttft (without_transfer cs)) e in
    let f = (choose_lowest_ttft_iff (without_transfer cs) c).0.0 ec in
    let n =
      All-get_elem? NoTransfer (without_transfer cs) f.at (without_transfer-NoTransfer cs)
        f.found in
    rw (ok-injective ea) at n

-- On a path that is down a transfer is picked only as a due probe.
pick_action-down :
    (probe_every : ℤ) (since : ℕ) (cs : List Candidate) (choice a : Action)
    → pick_action probe_every since true cs choice ≡ ok a
    → action_eq a transfer ≡ true
    → is_probe_due probe_every since ≡ true
unfolding pick_action
pick_action-down probe_every since cs choice a e t =
    elim (Bool-cases (is_probe_due probe_every since)) [
      | inl due ↦ due
      | inr h ↦ elim (Bool-cases (action_eq choice transfer)) [
        | inl c ↦ cc (t, best_without_transfer-ne cs a (rw (h, c, pick_action) at e))
        | inr c ↦
            let same : choice ≡ a = ok-injective (rw (h, c, pick_action) at e) in cc (rw same at c)
      ]
    ]

module _ {F L : Type 0} ⦃fl : Float64 F⦄ (learner : Learner F L) (env : Env F) (cfg : Config) where
  plan-down :
      (st : RunState L) (s : Scenario F) (choice a : Action)
      → plan learner cfg st s ≡ ok (choice, a)
      → st.down ≡ true
      → action_eq a transfer ≡ true
      → is_probe_due cfg.probe_every st.since_transfer ≡ true
  unfolding plan
  plan-down st s choice a e d t =
      let (cs, _, e1) =
        >>=-eq-ok _
          (CostModel.estimate (inputs (believed learner st.learner s) (learner.startup st.learner)))
          e in
      let (c, _, e2) = >>=-eq-ok _ (choose_lowest_ttft cs) e1 in
      let (x, ex, e3) =
        >>=-eq-ok _ (pick_action cfg.probe_every st.since_transfer st.down cs c.action) e2 in
      let same : x ≡ a = ap (λ p. p.1) (ok-injective e3) in
      pick_action-down cfg.probe_every st.since_transfer cs c.action a (rw (d, same) at ex) t

  -- `k` requests have passed since a failed call, and a probe is due.
  abbrev Waited : ℕ → Type 0
  Waited k = (pos 0 <ℤ cfg.probe_every) × (cfg.probe_every ≤ℤ pos k)

  -- From a state of the path and of the counter, each call on a path that is down was a due probe.
  abbrev Patience : Bool → ℕ → List (RunResult F) → List (Scenario F) → Type 0
  Patience down k [] ss = Unit
  Patience down k (r ∷ rs) [] = Unit
  Patience down k (r ∷ rs) (s ∷ ss) =
      ((is_called s r.action ≡ false) × (r.error ≡ none) × Patience down (suc k) rs ss)
      ⊎ ((is_called s r.action ≡ true)
          × (down ≡ true → Waited k)
          × Patience (is_some r.error) 0 rs ss)

  due→Waited : (k : ℕ) → is_probe_due cfg.probe_every k ≡ true → Waited k
  due→Waited k h = ground arith

  called-Waited :
      (st : RunState L) (s : Scenario F) (choice a : Action)
      → plan learner cfg st s ≡ ok (choice, a)
      → is_called s a ≡ true
      → st.down ≡ true
      → Waited st.since_transfer
  called-Waited st s choice a e c d =
      due→Waited st.since_transfer (plan-down st s choice a e d (ground arith))

  turn-Patience :
      (i : ℕ) (st st' : RunState L) (s : Scenario F) (ss : List (Scenario F)) (r : RunResult F)
      (rs : List (RunResult F)) (choice : Action)
      → plan learner cfg st s ≡ ok (choice, r.action)
      → Kind learner env cfg i st s r st'
      → Patience st'.down st'.since_transfer rs ss
      → Patience st.down st.since_transfer (r ∷ rs) (s ∷ ss)
  turn-Patience i st st' s ss r rs choice planned (idle c n _ e) ih =
      inl (c, n, rw (e, add-one) at ih)
  turn-Patience i st st' s ss r rs choice planned (broken x c _ _ n _ e) ih =
      inr (c, called-Waited st s choice r.action planned c, rw n (rw e at ih))
  turn-Patience i st st' s ss r rs choice planned (measured c _ n e) ih =
      inr (c, called-Waited st s choice r.action planned c, rw n (rw e at ih))

  Steps-Patience :
      {i : ℕ} {st : RunState L} {ss : List (Scenario F)} {rs : List (RunResult F)} {l : L}
      → Steps learner env cfg i st ss rs l
      → Patience st.down st.since_transfer rs ss
  Steps-Patience halt = tt
  Steps-Patience (go_on {i = i} {st = st} {st' = st'} {s = s} {ss = ss} {r = r} {rs = rs} e steps) =
      let (choice, planned, kind) = turn-Kind learner env cfg i st s e in
      turn-Patience i st st' s ss r rs choice planned kind (Steps-Patience steps)

  -- At index `j` the worker was called.
  pub record IsCall (ss : List (Scenario F)) (rs : List (RunResult F)) (j : ℕ) : Type 0 where
    pub scenario : Scenario F
    pub result : RunResult F
    pub scenario_at : get_elem? ss j ≡ some scenario
    pub result_at : get_elem? rs j ≡ some result
    pub called : is_called scenario result.action ≡ true

  IsCall-tail :
      {r : RunResult F} {rs : List (RunResult F)} {s : Scenario F} {ss : List (Scenario F)} {j : ℕ}
      → IsCall (s ∷ ss) (r ∷ rs) (suc j)
      → IsCall ss rs j
  IsCall-tail c = record {
    scenario = c.scenario;
    result = c.result;
    scenario_at = c.scenario_at;
    result_at = c.result_at;
    called = c.called;
  }

  IsCall-cons :
      {r : RunResult F} {rs : List (RunResult F)} {s : Scenario F} {ss : List (Scenario F)} {j : ℕ}
      → IsCall ss rs j
      → IsCall (s ∷ ss) (r ∷ rs) (suc j)
  IsCall-cons c = record {
    scenario = c.scenario;
    result = c.result;
    scenario_at = c.scenario_at;
    result_at = c.result_at;
    called = c.called;
  }

  -- The first call after `k` requests without one, on a path that is down.
  first_call :
      (k j : ℕ) (rs : List (RunResult F)) (ss : List (Scenario F))
      → Patience true k rs ss
      → IsCall ss rs j
      → ((m : ℕ) → m < j → ¬ IsCall ss rs m)
      → Waited (k + j)
  first_call k j [] ss p c quiet = ground (arith, c.result_at)
  first_call k j (r ∷ rs) [] p c quiet = ground (arith, c.scenario_at)
  first_call k zero (r ∷ rs) (s ∷ ss) (inl (n, _, p)) c quiet =
      ground (arith, c.scenario_at, c.result_at, c.called)
  first_call k zero (r ∷ rs) (s ∷ ss) (inr (_, w, p)) c quiet =
      let due = w refl in omega (arith, due)
  first_call k (suc j) (r ∷ rs) (s ∷ ss) (inl (n, _, p)) c quiet =
      let w =
        first_call (suc k) j rs ss p (IsCall-tail c)
          (λ m h d. quiet (suc m) (omega arith) (IsCall-cons d)) in
      omega (arith, w)
  first_call k (suc j) (r ∷ rs) (s ∷ ss) (inr (y, w, p)) c quiet = absurd (
      quiet 0 (omega arith)
        (record { scenario = s; result = r; scenario_at = refl; result_at = refl; called = y }))

  after_failure :
      (down : Bool) (k i d : ℕ) (rs : List (RunResult F)) (ss : List (Scenario F)) (r : RunResult F)
      (x : CallError)
      → Patience down k rs ss
      → get_elem? rs i ≡ some r
      → r.error ≡ some x
      → IsCall ss rs (suc (i + d))
      → ((m : ℕ) → m < d → ¬ IsCall ss rs (suc (i + m)))
      → Waited d
  after_failure down k i d [] ss r x p at failed_ c quiet = ground arith
  after_failure down k i d (r' ∷ rs) [] r x p at failed_ c quiet = ground (arith, c.scenario_at)
  after_failure down k zero d (r' ∷ rs) (s ∷ ss) r x (inl (_, n, p)) at failed_ c quiet =
      ground arith
  after_failure down k zero d (r' ∷ rs) (s ∷ ss) r x (inr (_, _, p)) at failed_ c quiet =
      let same : r'.error ≡ some x = ground arith in
      let p' : Patience true 0 rs ss = rw same at p in
      let c' : IsCall ss rs d = rw add.zero at (IsCall-tail c) in
      let w = first_call 0 d rs ss p' c' (λ m h e. quiet m h (rw add.zero (IsCall-cons e))) in
      omega (arith, w)
  after_failure down k (suc i) d (r' ∷ rs) (s ∷ ss) r x (inl (_, _, p)) at failed_ c quiet =
      after_failure down (suc k) i d rs ss r x p at failed_ (rw add.suc at (IsCall-tail c))
        (λ m h e. quiet m h (rw add.suc (IsCall-cons e)))
  after_failure down k (suc i) d (r' ∷ rs) (s ∷ ss) r x (inr (_, _, p)) at failed_ c quiet =
      after_failure (is_some r'.error) 0 i d rs ss r x p at failed_ (rw add.suc at (IsCall-tail c))
        (λ m h e. quiet m h (rw add.suc (IsCall-cons e)))

  -- After a failed call, the next call comes only when at least the probe interval of other requests
  -- has passed, and never with probing off.
  pub run_backoff :
      (l : L) (ss : List (Scenario F)) {rs : List (RunResult F)} {e : Option Stop}
      → run learner env cfg l ss ≡ (rs, e)
      → (i d : ℕ) (r : RunResult F) (x : CallError) → get_elem? rs i ≡ some r
      → r.error ≡ some x
      → IsCall ss rs (suc (i + d))
      → ((m : ℕ) → m < d → ¬ IsCall ss rs (suc (i + m)))
      → (pos 0 <ℤ cfg.probe_every) × (cfg.probe_every ≤ℤ pos d)
  run_backoff l ss {rs} e i d r x at failed_ c quiet = elim (run-Steps learner env cfg l ss e) [
    | inl empty ↦ ground (arith, rw empty at at)
    | inr (l', steps) ↦
        after_failure false 0 i d rs ss r x (Steps-Patience steps) at failed_ c quiet
  ]
