-- ===== src/KvXfer/Rounds.antt =====
-- The rounds of a run, up to the first after which it is to stop.
use mathlib.Core.Path.{subst}
use kvflow.KvXfer.{
  ltb, one_round, rounds, is_done, Bool, after_round, Options, Link, Progress, Ran, RunError, ℕ,
  Option, length,
}
use kvflow.Prelude.{
  zero, suc, none, some, refl, inl, inr, true, false, ◌≡◌, ◌⊎◌, ◌*◌, ◌+◌, if◌then◌else◌, get_elem?,
  arith, Bool-cases, ◌∙◌, ap, sym, ◌<◌, ◌-◌,
}
use kvflow.KvXfer.Lines.{IsSettled, IsSound, one_round_lem}

module _ {F : Type 0} (o : Options) (link : Link F) where
  -- Rounds from the one after `q`: they ended well after round `last`, the first that is done, or earlier
  -- with an error.
  pub record IsDone (q last : ℕ) (r : Ran F) : Type 0 where
    pub no_error : r.error ≡ none
    pub after : q < last
    pub done : is_done o link last ≡ true
    pub not_before : (x : ℕ) → q < x → x < last → is_done o link x ≡ false
    pub sound : IsSound o link (last * length o.sizes) r

  abbrev pub Ended : ℕ → Ran F → Type 0
  Ended q r =
      ((last : ℕ) × IsDone q last r)
      ⊎ ((e : RunError) × (m : ℕ) × (r.error ≡ some e) × IsSound o link m r)

  after_round-error :
      (r : Ran F) (e : RunError) (b : Bool) (more : Option (Ran F))
      → r.error ≡ some e
      → after_round o link r b more ≡ some r
  after_round-error r e b more stop =
      subst (λ x. elim x [ some _ ↦ some r | none ↦ if b then some r else more ] ≡ some r)
        (sym stop) refl

  after_round-none :
      (r : Ran F) (b : Bool) (more : Option (Ran F))
      → r.error ≡ none
      → after_round o link r b more ≡ (if b then some r else more)
  after_round-none r b more none_ =
      ap (λ x. elim x [ some _ ↦ some r | none ↦ if b then some r else more ]) none_

  Ended-back : (q : ℕ) (r : Ran F) → is_done o link (suc q) ≡ false → Ended (suc q) r → Ended q r
  Ended-back q r open_ (inr stop) = inr stop
  Ended-back q r open_ (inl (last, d)) = inl (
    last,
    record {
      no_error = d.no_error;
      after = omega (arith, d.after);
      done = d.done;
      not_before = λ x l u. elim (Bool-cases (ltb (suc q) x)) [
        | inl past ↦ d.not_before x (ground arith) u
        | inr here ↦
            let same : suc q ≡ x = ground arith in subst (λ y. is_done o link y ≡ false) same open_
      ];
      sound = d.sound;
    },
  )

  -- Done after a round that is not far: with a round of fuel for each up to it the run ends.
  pub rounds_lem :
      (fuel q : ℕ) (p : Progress F)
      → IsSettled o link (q * length o.sizes) p
      → (d : ℕ) → d < fuel
      → is_done o link (suc q + d) ≡ true
      → (r : Ran F) × (rounds o link fuel (suc q) p ≡ some r) × Ended q r
  unfolding rounds
  rounds_lem zero q p h d lt done = absurd (omega arith)
  rounds_lem (suc fuel) q p h d lt done =
      let k = (suc q - 1) * length o.sizes in
      let same : suc q - 1 ≡ q = omega arith in
      let same_k : k ≡ q * length o.sizes = ap (λ n. n * length o.sizes) same in
      let r = one_round o link k (suc q) 0 o.sizes p in
      let b = is_done o link (suc q) in
      let more = rounds o link fuel (suc q + 1) r.progress in
      let start = subst (λ n. IsSettled o link n p) (sym same_k) h in
      let total : k + length o.sizes ≡ suc q * length o.sizes = omega (arith, same_k) in
      elim (one_round_lem o link k q 0 o.sizes p (omega (arith, same_k))
        (λ j n e. subst (λ i. get_elem? o.sizes i ≡ some n) (omega arith) e) start) [
          | inr (e, m, stop, s) ↦ (r, after_round-error r e b more stop, inr (e, m, stop, s))
          | inl (fine_, s) ↦
              let s' = subst (λ n. IsSound o link n r) total s in
              let next = after_round-none r b more fine_ in
              elim (Bool-cases b) [
                | inl now ↦ (
                  r,
                  next ∙ rw now refl,
                  inl (
                    suc q,
                    record {
                      no_error = fine_;
                      after = omega arith;
                      done = now;
                      not_before = λ x l u. absurd (omega arith);
                      sound = s';
                    },
                  ),
                )
                | inr later ↦
                    let (d', e) = not_now d later done in
                    let ahead : suc q + d ≡ suc (suc q) + d' = omega (arith, e) in
                    let up : suc (suc q) ≡ suc q + 1 = omega arith in
                    let (r', ran, end) =
                      rounds_lem fuel (suc q) r.progress s'.state d' (omega (arith, e))
                        (subst (λ n. is_done o link n ≡ true) ahead done) in
                    (
                      r',
                      next
                          ∙ rw later
                              (subst (λ n. rounds o link fuel n r.progress ≡ some r') up ran),
                      Ended-back q r' later end,
                    )
              ]
        ]
    where
      not_now :
          (m : ℕ)
          → is_done o link (suc q) ≡ false
          → is_done o link (suc q + m) ≡ true
          → (m' : ℕ) × (m ≡ suc m')
      not_now zero f t =
          let same : suc q + 0 ≡ suc q = omega arith in
          let t' = subst (λ n. is_done o link n ≡ true) same t in cc
      not_now (suc m) f t = (m, refl)
