-- ===== src/Simulator/Workload/Flaps.antt =====
-- The phases of `Flapping`.
use kvflow.Int.{ltb_ℤ, ◌≤ℤ◌, pos, ◌<ℤ◌, pos_part, parts_disjoint}
use kvflow.Simulator.Workload.{
  assign_range, assign_between, period_end, Scenario, flap_loop, flapping, ℤ, is_bad_period, stable,
}
use mathlib.Core.Path.{subst}
use mathlib.Core.List.{append_assoc, append-nil}
use kvflow.Prelude.{
  [], ◌∷◌, zero, suc, some, refl, inl, inr, true, false, List, length, ◌++◌, ◌≡◌, ℕ, ap, replicate,
  replicate_add, ◌+◌, length-append, arith, sym, ◌∙◌, Bool, ◌<◌, ◌≤◌, if◌then◌else◌, not, Option,
  ◌⊎◌, length-replicate, ◌-◌, ◌^◌, err, invalid_period, ok,
}
use kvflow.Simulator.Workload.Periods.{
  Phases, phase, ended, cut, assign_range-append, period_bounds,
}

module _ {F R : Type 0} (int_n : R → ℕ → ℕ × R)
    (below : (rng : R) (m : ℕ) → 0 < m → (int_n rng m).0 < m) (lo hi : ℕ)
    (fast slow : Scenario F) where
  -- The elements after `front` that the loop leaves in place of as many fast ones.
  abbrev Left : Bool → ℕ → List (Scenario F) → Option (List (Scenario F)) → Type 0
  Left b left front x =
      (rest : List (Scenario F)) × (x ≡ some (front ++ rest))
      × (length rest ≡ left)
      × Phases lo hi fast slow b rest

  -- One period of a loop at `front`, of `c` scenarios with `m` left.
  one_period :
      (b : Bool) (c m : ℕ) (front : List (Scenario F))
      → (if b
          then assign_range c (length front) slow (front ++ replicate (c + m) fast)
          else front ++ replicate (c + m) fast)
        ≡ (front ++ replicate c (if b then slow else fast)) ++ replicate m fast
  one_period true c m front =
      assign_range-append c m front slow fast
      ∙ sym (append_assoc front (replicate c slow) (replicate m fast))
  one_period false c m front =
      ap (λ l. front ++ l) (replicate_add c m fast)
      ∙ sym (append_assoc front (replicate c fast) (replicate m fast))

  -- A period that the loop adds in front of later ones.
  Left-period :
      (b : Bool) (c left : ℕ) (front : List (Scenario F)) (x : Option (List (Scenario F)))
      → 0 < c
      → c ≤ hi
      → (lo ≤ c) ⊎ (left ≡ 0)
      → Left (not b) left (front ++ replicate c (if b then slow else fast)) x
      → Left b (c + left) front x
  Left-period b c left front x pos_ le (inl long) (rest, e, n, phases) = (
    replicate c (if b then slow else fast) ++ rest,
    e ∙ ap some (append_assoc front (replicate c (if b then slow else fast)) rest),
    length-append (replicate c (if b then slow else fast)) rest
        ∙ omega (arith, n, length-replicate c (if b then slow else fast)),
    phase b c rest long le phases,
  )
  Left-period b c left front x pos_ le (inr none_) ([], e, n, phases) = (
    replicate c (if b then slow else fast),
    e ∙ ap some (append-nil _),
    length-replicate c (if b then slow else fast) ∙ omega (arith, none_),
    cut b c pos_ le,
  )
  Left-period b c left front x pos_ le (inr none_) (y ∷ ys, e, n, phases) =
      absurd (omega (arith, n, none_))

  -- The assignments of a period.
  period_done :
      (b : Bool) (c m : ℕ) (front truths : List (Scenario F)) (start : ℕ)
      → length front ≡ start
      → truths ≡ front ++ replicate (c + m) fast
      → (if b then assign_between (pos start) (pos (start + c)) slow truths else some truths)
        ≡ some ((front ++ replicate c (if b then slow else fast)) ++ replicate m fast)
  unfolding assign_between
  period_done true c m front truths start s e =
      let width : start + c - start ≡ c = omega arith in
      ap (λ z. some (assign_range z start slow truths)) width
      ∙ ap (λ z. some (assign_range c z slow truths)) (sym s)
      ∙ ap (λ ts. some (assign_range c (length front) slow ts)) e
      ∙ ap some (one_period true c m front)
  period_done false c m front truths start s e = ap some (e ∙ one_period false c m front)

  -- A round of the loop.
  flap_loop_round :
      (fuel n : ℕ) (rng : R) (b : Bool) (start : ℤ) (truths truths' : List (Scenario F))
      → ltb_ℤ start (pos n) ≡ true
      → let end = period_end n start (lo + (int_n rng (hi - lo + 1)).0) in
        (if b then assign_between start end slow truths else some truths) ≡ some truths'
        → flap_loop int_n (suc fuel) n lo hi slow rng b start truths
          ≡ flap_loop int_n fuel n lo hi slow (int_n rng (hi - lo + 1)).1 (not b) end truths'
  unfolding flap_loop
  flap_loop_round fuel n rng b start truths truths' more done = rw (more, done, flap_loop) refl

  flap_loop_lem :
      (fuel n : ℕ) (rng : R) (b : Bool) (start left : ℕ) (front truths : List (Scenario F))
      → 0 < lo
      → lo ≤ hi
      → n + hi < 2 ^ 63
      → truths ≡ front ++ replicate left fast
      → length front ≡ start
      → start + left ≡ n
      → left < fuel
      → Left b left front (flap_loop int_n fuel n lo hi slow rng b (pos start) truths)
  unfolding flap_loop
  flap_loop_lem zero n rng b start left front truths p q f e s t u = absurd (omega arith)
  flap_loop_lem (suc fuel) n rng b start zero front truths p q f e s t u =
      let stop : ltb_ℤ (pos start) (pos n) ≡ false = ground (arith, t) in
      rw (stop, flap_loop) ([], ap some e, refl, ended b)
  flap_loop_lem (suc fuel) n rng b start (suc left) front truths p q f e s t u =
      let small : (int_n rng (hi - lo + 1)).0 < hi - lo + 1 =
        below rng (hi - lo + 1) (omega arith) in
      let rng' = (int_n rng (hi - lo + 1)).1 in
      let (c, left', at, pos_, le, total, long) =
        period_bounds lo hi n start (int_n rng (hi - lo + 1)).0 p q small (omega (arith, t)) f in
      let front' = front ++ replicate c (if b then slow else fast) in
      let same : suc left ≡ c + left' = omega (arith, t, total) in
      let changed =
        period_done b c left' front truths start s (e ∙ ap (λ z. front ++ replicate z fast) same) in
      let size : length front' ≡ start + c =
        length-append front (replicate c (if b then slow else fast))
        ∙ omega (arith, s, length-replicate c (if b then slow else fast)) in
      let truths' = front' ++ replicate left' fast in
      let rest = flap_loop int_n fuel n lo hi slow rng' (not b) (pos (start + c)) truths' in
      let ih : Left (not b) left' front' rest =
        flap_loop_lem fuel n rng' (not b) (start + c) left' front' truths' p q f refl size total
          (omega (arith, same)) in
      let more : ltb_ℤ (pos start) (pos n) ≡ true = ground (arith, t) in
      let step =
        flap_loop_round fuel n rng b (pos start) truths truths' more (
          ap (λ z. if b then assign_between (pos start) z slow truths else some truths) at
          ∙ changed)
        ∙ ap (λ z. flap_loop int_n fuel n lo hi slow rng' (not b) z truths') at in
      subst (Left b (suc left) front) (sym step) (
        subst (λ z. Left b z front rest) (sym same)
          (Left-period b c left' front rest pos_ le long ih))

module _ {F R : Type 0} (int_n : R → ℕ → ℕ × R)
    (below : (rng : R) (m : ℕ) → 0 < m → (int_n rng m).0 < m) where
  -- With a generator whose draws are below their bound: a shortest period below 1, or a longest below the
  -- shortest, is an error. Otherwise, with requests and a longest period that add up to less than 2 ^ 63, the
  -- loop ends without an index out of range, and the result is as many scenarios as requested, in
  -- phases that are fast and slow in turn, the first fast, each as long as the periods allow but the last,
  -- which may be shorter.
  pub flapping_lem :
      (rng : R) (n : ℕ) (min_period max_period : ℤ) (fast slow : Scenario F)
      → ((min_period ≤ℤ pos 0) ⊎ (max_period <ℤ min_period)
          → flapping int_n rng n min_period max_period fast slow ≡ err invalid_period)
        × (pos 0 <ℤ min_period
            → min_period ≤ℤ max_period
            → n + pos_part max_period < 2 ^ 63
            → (truths : List (Scenario F)) × (flapping int_n rng n min_period max_period fast slow
                ≡ ok (some truths))
              × (length truths ≡ n)
              × Phases (pos_part min_period) (pos_part max_period) fast slow false truths)
  unfolding flapping
  flapping_lem rng n min_period max_period fast slow = (
    λ h. let bad : is_bad_period min_period max_period ≡ true = ground arith in rw bad refl,
    λ h k fits.
        let good : is_bad_period min_period max_period ≡ false = ground arith in
        let lo = pos_part min_period in
        let hi = pos_part max_period in
        let disjoint = parts_disjoint min_period in
        let (truths, e, size, phases) =
          flap_loop_lem int_n below lo hi fast slow (n + 1) n rng false 0 n [] (stable n fast)
            (ground (arith, disjoint)) (ground (arith, disjoint)) fits refl refl (omega arith)
            (omega arith) in
        (truths, rw (good, e) refl, size, phases),
  )
