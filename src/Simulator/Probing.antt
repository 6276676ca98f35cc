-- ===== src/Simulator/Probing.antt =====
-- With probing on, transfers are executed at bounded distances, whatever the learner believes.
use kvflow.Int.{≤ℤ→ltb_ℤ}
use kvflow.Scheduler.Actions.{action_eq-transfer, action_ne-transfer}
use kvflow.Simulator.Outcomes.{adaptive_loop-cons, adaptive_outcome-IsTrue}
use kvflow.Learner.{Learner}
use kvflow.Scheduler.{transfer, Action, action_eq}
use native.Mathlib.Numerals.{add-one}
use kvflow.Prelude.{
  refl, ℕ, zero, suc, ◌+◌, ◌≤◌, ◌<◌, ◌≡◌, ◌≢◌, ◌⊎◌, inl, inr, List, [], ◌∷◌, arith, get_elem?,
  length, some, ◌-◌, true, false, ok, ok-injective, ap, Bool-cases,
}
use kvflow.Float64.{Float64}
use kvflow.Simulator.{Scenario, Outcome, pos}
use kvflow.Simulator.Policy.{AdaptiveState, adaptive_next, adaptive_loop, run_adaptive, executed}

-- Every outcome within the gap: after `k` outcomes with no transfer, at most `p` in a row have none.
abbrev pub WithinGap : ℕ → ℕ → List Outcome → Type 0
WithinGap p k [] = Unit
WithinGap p k (o ∷ os) =
    ((o.executed ≡ transfer) × WithinGap p 0 os)
    ⊎ ((o.executed ≢ transfer) × (k < p) × WithinGap p (suc k) os)

-- An index from `i` to `i + p` at which a transfer was executed.
pub record TransferNear (p i : ℕ) (os : List Outcome) : Type 0 where
  pub at : ℕ
  pub outcome : Outcome
  pub from : i ≤ at
  pub to : at ≤ i + p
  pub found : get_elem? os at ≡ some outcome
  pub is_transfer : outcome.executed ≡ transfer

TransferNear-suc :
    {p i : ℕ} {o : Outcome} {os : List Outcome}
    → TransferNear p i os
    → TransferNear p (suc i) (o ∷ os)
TransferNear-suc t = record {
  at = suc t.at;
  outcome = t.outcome;
  from = omega (arith, t.from);
  to = omega (arith, t.to);
  found = t.found;
  is_transfer = t.is_transfer;
}

first_transfer :
    (p k : ℕ) (os : List Outcome)
    → k ≤ p
    → WithinGap p k os
    → p < k + length os
    → TransferNear (p - k) 0 os
first_transfer p k [] b g h = absurd (omega arith)
first_transfer p k (o ∷ os) b (inl (e, g)) h = record {
  at = 0;
  outcome = o;
  from = omega arith;
  to = omega arith;
  found = refl;
  is_transfer = e;
}
first_transfer p k (o ∷ os) b (inr (e, lt, g)) h =
    let t = first_transfer p (suc k) os (omega arith) g (omega arith) in
    record {
      at = suc t.at;
      outcome = t.outcome;
      from = omega arith;
      to = omega (arith, t.to);
      found = t.found;
      is_transfer = t.is_transfer;
    }

WithinGap-window :
    (p k i : ℕ) (os : List Outcome)
    → k ≤ p
    → WithinGap p k os
    → i + p < length os
    → TransferNear p i os
WithinGap-window p k i [] b g h = absurd (omega arith)
WithinGap-window p k zero (o ∷ os) b g h =
    let t = first_transfer p k (o ∷ os) b g (omega arith) in
    record {
      at = t.at;
      outcome = t.outcome;
      from = omega arith;
      to = omega (arith, t.to);
      found = t.found;
      is_transfer = t.is_transfer;
    }
WithinGap-window p k (suc i) (o ∷ os) b (inl (e, g)) h =
    TransferNear-suc (WithinGap-window p 0 i os (omega arith) g (omega arith))
WithinGap-window p k (suc i) (o ∷ os) b (inr (e, lt, g)) h =
    TransferNear-suc (WithinGap-window p (suc k) i os (omega arith) g (omega arith))

module _ {F : Type 0} ⦃fl : Float64 F⦄ {L N : Type 0} (learner : Learner F L)
    (observe : N → F → F × N) where
  -- An executed transfer resets the counter, another action adds one to it.
  next-transfer :
      (s : AdaptiveState L N) (truth : Scenario F) (a : Action)
      → action_eq a transfer ≡ true
      → (adaptive_next learner observe s truth a).since_transfer ≡ 0
  unfolding adaptive_next
  next-transfer s truth a h = ground arith

  next-other :
      (s : AdaptiveState L N) (truth : Scenario F) (a : Action)
      → action_eq a transfer ≡ false
      → adaptive_next learner observe s truth a ≡ record s { since_transfer = s.since_transfer + 1 }
  unfolding adaptive_next
  next-other s truth a h = rw h

  -- A request that does not transfer found no probe due.
  not_due :
      (p since : ℕ) (choice : Action)
      → 0 < p
      → action_eq (executed (pos p) since choice) transfer ≡ false
      → since < p
  unfolding action_eq
  not_due p since choice h e = ground arith

  adaptive_loop-WithinGap :
      (p : ℕ) (s : AdaptiveState L N) (truths : List (Scenario F)) {os : List Outcome}
      {s' : AdaptiveState L N}
      → 0 < p
      → s.since_transfer ≤ p
      → adaptive_loop learner observe (pos p) s truths ≡ (ok os, s')
      → WithinGap p s.since_transfer os
  unfolding adaptive_loop
  adaptive_loop-WithinGap p s [] h b e = rw (← ok-injective (ap (λ r. r.0) e)) tt
  adaptive_loop-WithinGap p s (truth ∷ truths) h b e =
      let (o, rest, eo, er, eos) = adaptive_loop-cons learner observe (pos p) s truth truths e in
      let (_, x) = adaptive_outcome-IsTrue learner (pos p) s truth o eo in
      rw eos (elim (Bool-cases (action_eq o.executed transfer)) [
        | inl t ↦
            let g =
              adaptive_loop-WithinGap p (adaptive_next learner observe s truth o.executed) truths h
                (omega (arith, next-transfer s truth o.executed t)) er in
            inl (action_eq-transfer o.executed t, rw (next-transfer s truth o.executed t) at g)
        | inr f ↦
            let lt = not_due p s.since_transfer o.believed h (rw x at f) in
            let e' = next-other s truth o.executed f in
            let g =
              adaptive_loop-WithinGap p (adaptive_next learner observe s truth o.executed) truths h
                (rw e' (omega arith)) er in
            inr (action_ne-transfer o.executed f, lt, rw (e', add-one) at g)
      ])

  -- With probing on, among every `p + 1` consecutive requests of a successful run, `p` the probe
  -- interval, at least one was executed as a transfer.
  pub run_adaptive_probes :
      (p : ℕ) (l : L) (noise : N) (truths : List (Scenario F)) {os : List Outcome}
      {s' : AdaptiveState L N}
      → 0 < p
      → run_adaptive learner observe l noise (pos p) truths ≡ (ok os, s')
      → (i : ℕ) → i + p < length os
      → TransferNear p i os
  unfolding run_adaptive
  run_adaptive_probes p l noise truths {os} h e i fits =
      WithinGap-window p 0 i os (omega arith)
        (adaptive_loop-WithinGap p (record { learner = l; noise = noise; since_transfer = 0 })
          truths h (omega arith) (rw (≤ℤ→ltb_ℤ (pos p) (pos 0) (omega arith), run_adaptive) at e))
        fits
