-- ===== src/Scheduler/Choice.antt =====
-- The choice of `ChooseLowestTTFT` is the first of the fastest candidates.
use kvflow.Prelude.{
  Bool, true, false, if◌then◌else◌, ℕ, zero, suc, ◌<◌, ◌≡◌, refl, sym, ap, ◌∙◌, ◌↔◌, ◌⊎◌, inl, inr,
  List, [], ◌∷◌, some, ok, err, arith, get_elem?, All, All-get_elem?, ℕ_trichotomy, ok-injective,
  no_candidates,
}
use mathlib.Core.Option.{some-injective}
use kvflow.Int.{◌≤ℤ◌, ◌<ℤ◌, ltb_ℤ→<ℤ, ltb_ℤ→≤ℤ}
use kvflow.Scheduler.{Candidate, is_faster, choose_from, choose_lowest_ttft}

-- `c` stands at index `at`, is as fast as every candidate and faster than those before it.
pub record IsFirstFastest (cs : List Candidate) (c : Candidate) : Type 0 where
  pub at : ℕ
  pub found : get_elem? cs at ≡ some c
  pub fastest :
      (j : ℕ) (d : Candidate) → get_elem? cs j ≡ some d → c.estimated_ttft ≤ℤ d.estimated_ttft
  pub first :
      (j : ℕ) (d : Candidate)
      → j < at
      → get_elem? cs j ≡ some d
      → c.estimated_ttft <ℤ d.estimated_ttft

module _ (c : Candidate) (cs : List Candidate) where
  IsFirstFastest-head :
      All (λ d. c.estimated_ttft ≤ℤ d.estimated_ttft) cs → IsFirstFastest (c ∷ cs) c
  IsFirstFastest-head all = record {
    at = 0;
    found = refl;
    fastest = fastest;
    first = λ j d p. absurd (omega arith);
  }
    where
      fastest :
          (j : ℕ) (d : Candidate)
          → get_elem? (c ∷ cs) j ≡ some d
          → c.estimated_ttft ≤ℤ d.estimated_ttft
      fastest zero d q = ground arith
      fastest (suc j) d q = All-get_elem? (λ x. c.estimated_ttft ≤ℤ x.estimated_ttft) cs j all q

  IsFirstFastest-cons :
      {r : Candidate}
      → IsFirstFastest cs r
      → r.estimated_ttft <ℤ c.estimated_ttft
      → IsFirstFastest (c ∷ cs) r
  IsFirstFastest-cons {r} f wins = record {
    at = suc f.at;
    found = f.found;
    fastest = fastest;
    first = first;
  }
    where
      fastest :
          (j : ℕ) (d : Candidate)
          → get_elem? (c ∷ cs) j ≡ some d
          → r.estimated_ttft ≤ℤ d.estimated_ttft
      fastest zero d q = ground arith
      fastest (suc j) d q = f.fastest j d q

      first :
          (j : ℕ) (d : Candidate)
          → j < suc f.at
          → get_elem? (c ∷ cs) j ≡ some d
          → r.estimated_ttft <ℤ d.estimated_ttft
      first zero d p q = ground arith
      first (suc j) d p q = f.first j d (omega arith) q

-- What the loop returns: the best so far, or the first fastest of the rest, which beats it.
abbrev Wins : Candidate → List Candidate → Candidate → Type 0
Wins best cs r =
    ((r ≡ best) × All (λ d. best.estimated_ttft ≤ℤ d.estimated_ttft) cs)
    ⊎ (IsFirstFastest cs r × (r.estimated_ttft <ℤ best.estimated_ttft))

-- The next candidate is faster: the loop goes on from it.
Wins-faster :
    (best c : Candidate) (cs : List Candidate) (r : Candidate)
    → c.estimated_ttft <ℤ best.estimated_ttft
    → Wins c cs r
    → Wins best (c ∷ cs) r
Wins-faster best c cs r h (inl (e, all)) = rw e (inr (IsFirstFastest-head c cs all, h))
Wins-faster best c cs r h (inr (f, wins)) = inr (IsFirstFastest-cons c cs f wins, omega arith)

-- The next candidate is not faster: the loop keeps the best so far.
Wins-slower :
    (best c : Candidate) (cs : List Candidate) (r : Candidate)
    → best.estimated_ttft ≤ℤ c.estimated_ttft
    → Wins best cs r
    → Wins best (c ∷ cs) r
Wins-slower best c cs r h (inl (e, all)) = inl (e, (h, all))
Wins-slower best c cs r h (inr (f, wins)) = inr (IsFirstFastest-cons c cs f (omega arith), wins)

-- One round of the loop, for either outcome `b` of its test.
Wins-round :
    (best c : Candidate) (cs : List Candidate) (b : Bool)
    → is_faster c best ≡ b
    → ((next : Candidate) → Wins next cs (choose_from next cs))
    → Wins best (c ∷ cs) (choose_from (if b then c else best) cs)
Wins-round best c cs true h ih =
    Wins-faster best c cs _ (ltb_ℤ→<ℤ c.estimated_ttft best.estimated_ttft h) (ih c)
Wins-round best c cs false h ih =
    Wins-slower best c cs _ (ltb_ℤ→≤ℤ c.estimated_ttft best.estimated_ttft h) (ih best)

choose_from-Wins : (best : Candidate) (cs : List Candidate) → Wins best cs (choose_from best cs)
unfolding choose_from
choose_from-Wins best [] = inl (refl, tt)
choose_from-Wins best (c ∷ cs) = Wins-round best c cs _ refl (λ next. choose_from-Wins next cs)

Wins→IsFirstFastest :
    (best : Candidate) (cs : List Candidate) (r : Candidate)
    → Wins best cs r
    → IsFirstFastest (best ∷ cs) r
Wins→IsFirstFastest best cs r (inl (e, all)) = rw e (IsFirstFastest-head best cs all)
Wins→IsFirstFastest best cs r (inr (f, wins)) = IsFirstFastest-cons best cs f wins

-- There is at most one first fastest candidate.
IsFirstFastest-unique :
    (cs : List Candidate) (c d : Candidate) → IsFirstFastest cs c → IsFirstFastest cs d → c ≡ d
IsFirstFastest-unique cs c d f g = elim (ℕ_trichotomy f.at g.at) [
  | inl before ↦ absurd (omega (arith, g.first f.at c before f.found, f.fastest g.at d g.found))
  | inr (inl e) ↦
      let here : get_elem? cs g.at ≡ some c = rw e at f.found in
      some-injective _ _ (sym here ∙ g.found)
  | inr (inr after) ↦ absurd (omega (arith, f.first g.at d after g.found, g.fastest f.at c f.found))
]

-- The choice is an error exactly for no candidates, and otherwise exactly the first of the fastest:
-- no candidate is faster, and those before it in the input are all slower.
pub choose_lowest_ttft_iff :
    (cs : List Candidate) (r : Candidate)
    → ((choose_lowest_ttft cs ≡ ok r) ↔ IsFirstFastest cs r)
      × ((choose_lowest_ttft cs ≡ err no_candidates) ↔ (cs ≡ []))
unfolding choose_lowest_ttft
choose_lowest_ttft_iff [] r = ((λ e. cc, λ f. ground (arith, f.found)), ground arith)
choose_lowest_ttft_iff (c ∷ cs) r =
    let found = Wins→IsFirstFastest c cs _ (choose_from-Wins c cs) in
    (
      (λ e. rw (ok-injective e) at found, λ f. ap ok (IsFirstFastest-unique (c ∷ cs) _ r found f)),
      ground arith,
    )
