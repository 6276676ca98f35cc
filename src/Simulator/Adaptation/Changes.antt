-- ===== src/Simulator/Adaptation/Changes.antt =====
-- The reported adaptations are the changes of the best action, each with the time to believe it.
use kvflow.Prelude.{
  zero, suc, [], none, Option, List, ℕ, ◌≡◌, ◌∷◌, get_elem?, ◌≤◌, length, All, some, Bool-cases,
  arith, ok, inl, false, Matched, ok-injective, >>=-eq-ok, refl, if◌then◌else◌, ◌+◌, ◌==◌, inr, suc,
  sym, length-Matched, ◌∙◌, ap,
}
use native.Mathlib.Numerals.{add-one}
use kvflow.Scheduler.{Action, action_eq, Candidate}
use kvflow.Float64.{Float64}
use kvflow.Simulator.{Scenario, Outcome, best_actual}
use kvflow.Simulator.Adaptation.{
  Adaptation, adaptation, changes, all_changes, best_actions, adaptation_times,
}
use kvflow.Simulator.Adaptation.Settling.{GoesOn, Settled, settled_lem}

-- The requests that an adaptation reports, or that it never came.
abbrev pub answer : Adaptation → Option ℕ
answer a = if a.adapted then some a.requests else none

-- A change from one best action to another, and the time until the policy believed it.
pub record IsAdaptation (best : List Action) (os : List Outcome) (a : Adaptation) : Type 0 where
  pub before : ℕ
  pub at_next : a.at ≡ before + 1
  pub from_best : get_elem? best before ≡ some a.from
  pub to_best : get_elem? best a.at ≡ some a.to
  pub differs : action_eq a.to a.from ≡ false
  pub answered : Settled best os a.to a.at (answer a)

-- In order, and each index once.
abbrev pub Ascending : ℕ → List Adaptation → Type 0
Ascending i [] = Unit
Ascending i (a ∷ reports) = (i ≤ a.at) × Ascending (a.at + 1) reports

-- Some adaptation is reported at the index.
abbrev pub ReportedAt : List Adaptation → ℕ → Type 0
ReportedAt reports i = (q : ℕ) × (a : Adaptation) × (get_elem? reports q ≡ some a) × (a.at ≡ i)

changes-Ascending :
    (i k : ℕ) (b : Action) (bs : List Action) (os : List Outcome)
    → k ≤ i
    → Ascending k (changes i b bs os)
unfolding changes
changes-Ascending i k prev [] os h = tt
changes-Ascending i k prev (b ∷ bs) [] h = tt
changes-Ascending i k prev (b ∷ bs) (o ∷ os) h = elim (Bool-cases (action_eq b prev)) [
  | inl t ↦ rw t (changes-Ascending (i + 1) k b bs os (omega arith))
  | inr f ↦ rw f (h, changes-Ascending (i + 1) (i + 1) b bs os (omega arith))
]

changes-ReportedAt :
    (i m : ℕ) (prev x y : Action) (bs : List Action) (os : List Outcome)
    → length bs ≡ length os
    → get_elem? (prev ∷ bs) m ≡ some x
    → get_elem? bs m ≡ some y
    → action_eq y x ≡ false
    → ReportedAt (changes i prev bs os) (i + m)
unfolding changes
changes-ReportedAt i m prev x y [] os len ex ey f = ground arith
changes-ReportedAt i m prev x y (b ∷ bs) [] len ex ey f = ground arith
changes-ReportedAt i zero prev x y (b ∷ bs) (o ∷ os) len ex ey f =
    let n : action_eq b prev ≡ false = ground arith in rw n (0, _, refl, omega arith)
changes-ReportedAt i (suc m) prev x y (b ∷ bs) (o ∷ os) len ex ey f =
    let (q, a, found, e) = changes-ReportedAt (i + 1) m b x y bs os (omega arith) ex ey f in
    elim (Bool-cases (action_eq b prev)) [
      | inl t ↦ rw t (q, a, found, omega arith)
      | inr n ↦ rw n (suc q, a, found, omega arith)
    ]

module _ (best : List Action) (os : List Outcome) where
  adaptation-IsAdaptation :
      (j : ℕ) (from to : Action) (n : Option ℕ)
      → get_elem? best j ≡ some from
      → get_elem? best (j + 1) ≡ some to
      → action_eq to from ≡ false
      → Settled best os to (j + 1) n
      → IsAdaptation best os (adaptation (j + 1) from to n)
  adaptation-IsAdaptation j from to none ef et d s = record {
    before = j;
    at_next = refl;
    from_best = ef;
    to_best = et;
    differs = d;
    answered = s;
  }
  adaptation-IsAdaptation j from to (some n) ef et d s = record {
    before = j;
    at_next = refl;
    from_best = ef;
    to_best = et;
    differs = d;
    answered = s;
  }

  changes-IsAdaptation :
      (j : ℕ) (prev : Action) (bs : List Action) (ps : List Outcome)
      → get_elem? best j ≡ some prev
      → GoesOn best (j + 1) bs
      → GoesOn os (j + 1) ps
      → All (IsAdaptation best os) (changes (j + 1) prev bs ps)
  unfolding changes
  changes-IsAdaptation j prev [] ps e h k = tt
  changes-IsAdaptation j prev (b ∷ bs) [] e h k = tt
  changes-IsAdaptation j prev (b ∷ bs) (p ∷ ps) e h k =
      let eb : get_elem? best (j + 1) ≡ some b = h 0 (j + 1) (omega arith) in
      let rest =
        changes-IsAdaptation (j + 1) b bs ps eb (λ m i q. h (suc m) i (omega arith))
          (λ m i q. k (suc m) i (omega arith)) in
      elim (Bool-cases (action_eq b prev)) [
        | inl t ↦ rw t rest
        | inr f ↦
            let s =
              settled_lem best os b (j + 1) 0 (b ∷ bs) (p ∷ ps) (λ m i q. h m i (omega arith))
                (λ m i q. k m i (omega arith)) (λ m lt. absurd (omega arith)) in
            rw f (adaptation-IsAdaptation j prev b _ e eb f s, rest)
      ]

tail-GoesOn {ℓ} : {A : Type ℓ} (x : A) (xs : List A) → GoesOn (x ∷ xs) (0 + 1) xs
tail-GoesOn x xs m zero e = absurd (omega arith)
tail-GoesOn x xs m (suc j) e = let same : j ≡ m = omega arith in ap (get_elem? xs) same

-- All of the changes are reported, in order, and nothing else.
pub record AreChanges (best : List Action) (os : List Outcome) (reports : List Adaptation)
    : Type 0 where
  pub ascending : Ascending 1 reports
  pub adaptations : All (IsAdaptation best os) reports
  pub complete :
      (k : ℕ) (x y : Action)
      → get_elem? best k ≡ some x
      → get_elem? best (k + 1) ≡ some y
      → action_eq y x ≡ false
      → ReportedAt reports (k + 1)

all_changes-AreChanges :
    (best : List Action) (os : List Outcome)
    → length best ≡ length os
    → AreChanges best os (all_changes best os)
unfolding all_changes
all_changes-AreChanges [] os len = record {
  ascending = tt;
  adaptations = tt;
  complete = λ k x y ex ey d. ground arith;
}
all_changes-AreChanges (b ∷ bs) [] len = ground arith
all_changes-AreChanges (b ∷ bs) (o ∷ os) len = record {
  ascending = changes-Ascending 1 1 b bs os (omega arith);
  adaptations =
      changes-IsAdaptation (b ∷ bs) (o ∷ os) 0 b bs os refl (tail-GoesOn b bs) (tail-GoesOn o os);
  complete = λ k x y ex ey d.
      ground (arith, changes-ReportedAt 1 k b x y bs os (omega arith) ex (rw add-one at ey) d);
}

module _ {F : Type 0} ⦃fl : Float64 F⦄ where
  -- The action that is truly best for a scenario.
  abbrev pub IsBest : Scenario F → Action → Type 0
  IsBest truth a = (c : Candidate) × (best_actual truth ≡ ok c) × (c.action ≡ a)

  best_actions-IsBest :
      (truths : List (Scenario F)) {best : List Action}
      → best_actions truths ≡ ok best
      → Matched IsBest truths best
  unfolding best_actions
  best_actions-IsBest [] e = rw (← ok-injective e) tt
  best_actions-IsBest (truth ∷ truths) e =
      let (c, ec, e1) = >>=-eq-ok _ (best_actual truth) e in
      let (rest, er, e2) = >>=-eq-ok _ (best_actions truths) e1 in
      rw (← ok-injective e2) ((c, ec, refl), best_actions-IsBest truths er)

  -- Where `AdaptationTimes` succeeds there is one outcome for each truth and each truth has a best
  -- action. It reports exactly the requests whose best action differs from that of the request
  -- before, in order. A report that says adapted counts the requests up to the first belief that
  -- is the new best action, which stays best until then; one that does not has no such belief while
  -- the new action stays best.
  pub adaptation_times_lem :
      (truths : List (Scenario F)) (os : List Outcome) {reports : List Adaptation}
      → adaptation_times truths os ≡ ok reports
      → (best : List Action) × (length truths ≡ length os)
        × Matched IsBest truths best
        × AreChanges best os reports
  unfolding adaptation_times
  adaptation_times_lem truths os {reports} e = elim (Bool-cases (length truths == length os)) [
    | inr h ↦ cc (rw (h, adaptation_times) at e)
    | inl h ↦
        let same : length truths ≡ length os = ground arith in
        let (best, eb, e1) = >>=-eq-ok _ (best_actions truths) (rw (h, adaptation_times) at e) in
        let m = best_actions-IsBest truths eb in
        let len : length best ≡ length os = sym (length-Matched IsBest truths best m) ∙ same in
        (best, same, m, rw (ok-injective e1) at (all_changes-AreChanges best os len))
  ]
