-- ===== src/Simulator/Adaptation/Settling.antt =====
-- What the reported adaptations say of the best actions and the beliefs.
use kvflow.Prelude.{
  [], ◌≤◌, get_elem?, ◌<◌, ◌≡◌, ◌∷◌, arith, suc, ℕ_trichotomy, none, ◌-◌, inl, Bool-cases, inr, ltb,
  sym, ◌∙◌,
}
use mathlib.Core.Option.{some-injective}
use kvflow.Scheduler.{Action, action_eq}
use kvflow.Simulator.{Outcome, List}
use kvflow.Simulator.Adaptation.{settled, ℕ, Bool, Option, false, ◌+◌, some, true}

-- From index `i` the best action is `to` for the whole of `n` more requests.
abbrev pub StaysBest : List Action → Action → ℕ → ℕ → Type 0
StaysBest best to i n =
    (m : ℕ) → m ≤ n → (b : Action) × (get_elem? best (i + m) ≡ some b) × (action_eq b to ≡ true)

-- The belief at an index is, or is not, that `to` is best.
abbrev pub Believes : List Outcome → Action → ℕ → Bool → Type 0
Believes os to j b = (o : Outcome) × (get_elem? os j ≡ some o) × (action_eq o.believed to ≡ b)

-- What an answer of the loop over `j` says of the window from `i`.
abbrev pub Settled : List Action → List Outcome → Action → ℕ → Option ℕ → Type 0
Settled best os to i (some n) =
    StaysBest best to i n
    × Believes os to (i + n) true
    × ((m : ℕ) → m < n → Believes os to (i + m) false)
Settled best os to i none = (n : ℕ) → StaysBest best to i n → ¬ Believes os to (i + n) true

-- From index `k` on, a list goes on as another.
abbrev pub GoesOn {ℓ} : {A : Type ℓ} → List A → ℕ → List A → Type ℓ
GoesOn xs k ys = (m j : ℕ) → j ≡ k + m → get_elem? xs j ≡ get_elem? ys m

Believes-unique :
    (os : List Outcome) (to : Action) (j : ℕ) → Believes os to j false → Believes os to j true → ⊥
Believes-unique os to j (o, e, h) (p, f, k) =
    let same : o ≡ p = some-injective _ _ (sym e ∙ f) in cc (rw same at h)

module _ (best : List Action) (os : List Outcome) (to : Action) (i : ℕ) where
  -- The loop over `j` has passed `n` requests without an answer.
  abbrev Passed : ℕ → Type 0
  Passed n =
      (m : ℕ)
      → m < n
      → ((b : Action) × (get_elem? best (i + m) ≡ some b) × (action_eq b to ≡ true))
        × Believes os to (i + m) false

  Passed-suc :
      (n : ℕ)
      → Passed n
      → ((b : Action) × (get_elem? best (i + n) ≡ some b) × (action_eq b to ≡ true))
      → Believes os to (i + n) false
      → Passed (n + 1)
  Passed-suc n p b o m h = elim (ℕ_trichotomy m n) [
    | inl lt ↦ p m lt
    | inr (inl e) ↦ rw e (b, o)
    | inr (inr gt) ↦ absurd (omega arith)
  ]

  -- Nothing more to find: the window or the outcomes end at request `n`.
  never :
      (n : ℕ)
      → Passed n
      → ((n' : ℕ) → n ≤ n' → StaysBest best to i n' → ¬ Believes os to (i + n') true)
      → Settled best os to i none
  never n p stop n' stays b = elim (Bool-cases (ltb n' n)) [
    | inl h ↦ Believes-unique os to (i + n') (p n' (ground arith)).1 b
    | inr h ↦ stop n' (ground arith) stays b
  ]

  pub settled_lem :
      (n : ℕ) (bs : List Action) (ps : List Outcome)
      → GoesOn best (i + n) bs
      → GoesOn os (i + n) ps
      → Passed n
      → Settled best os to i (settled to n bs ps)
  unfolding settled
  settled_lem n [] ps h k p =
      never n p (λ n' le stays b.
        let (x, e, _) = stays n le in ground (arith, h 0 (i + n) (omega arith), e))
  settled_lem n (b ∷ bs) [] h k p =
      never n p (λ n' le stays (o, e, _). ground (arith, k (n' - n) (i + n') (omega arith), e))
  settled_lem n (b ∷ bs) (o ∷ ps) h k p = elim (Bool-cases (action_eq b to)) [
    | inr f ↦ rw f (
        never n p (λ n' le stays c.
          let (x, e, t) = stays n le in
          let same : b ≡ x = some-injective _ _ (sym (h 0 (i + n) (omega arith)) ∙ e) in
          cc (rw same at f)))
    | inl t ↦
        let here : (x : Action) × (get_elem? best (i + n) ≡ some x) × (action_eq x to ≡ true) =
          (b, h 0 (i + n) (omega arith), t) in
        elim (Bool-cases (action_eq o.believed to)) [
          | inl y ↦
              rw (t, y)
                (
                  λ m le. elim (ℕ_trichotomy m n) [
                    | inl lt ↦ (p m lt).0
                    | inr (inl e) ↦ rw e here
                    | inr (inr gt) ↦ absurd (omega arith)
                  ],
                  (o, k 0 (i + n) (omega arith), y),
                  λ m lt. (p m lt).1,
                )
          | inr f ↦
              rw (t, f)
                (settled_lem (n + 1) bs ps (λ m j e. h (suc m) j (omega arith))
                  (λ m j e. k (suc m) j (omega arith))
                  (Passed-suc n p here (o, k 0 (i + n) (omega arith), f)))
        ]
  ]
