-- ===== src/KvLoadSim/Ranks.antt =====
-- The lines of kvloadsim's table, from the times of the policies' loads.
use native.Mathlib.Nat.{add-zero, zero-add}
use kvflow.Prelude.{
  Bool-cases, inl, inr, Bool, true, false, ℕ, suc, ◌+◌, ◌-◌, ◌<◌, ◌≤◌, ◌≡◌, refl, ap, sym, ◌∙◌,
  some, List, [], ◌∷◌, length, get_elem?, get_elem?-lt, Matched, All, arith, if◌then◌else◌,
}
use kvflow.Int.{pos, ◌-ℤ◌}
use kvflow.Float64.{Float64, ◌⊕◌, ◌⊖◌, ◌⊗◌, ◌⊘◌, ◌≺◌, ◌≼◌, nought, one, max_exact}
use kvflow.KvLoadSim.Policies.{Named, name, Stats, half}
use kvflow.KvLoadSim.Table.{
  is_less, insert, sorted, Columns, at_index, quantile, sum_from, add_times, line_of, lines_of,
}

-- What holds of math.Ceil, and of the arithmetic of a fraction of a count.
pub record HasRanks {F : Type 0} ⦃fl : Float64 F⦄ (stats : Stats F) : Type 0 where
  pub fraction :
      (m n : ℕ)
      → 0 < m
      → m ≤ n
      → n ≤ max_exact
      → (nought ≺ fl.of_int (pos m) ⊘ fl.of_int (pos n))
        × (fl.of_int (pos m) ⊘ fl.of_int (pos n) ≼ one)
  pub product :
      (x : F) (n : ℕ)
      → nought ≺ x
      → x ≼ one
      → 0 < n
      → (nought ≺ x ⊗ fl.of_int (pos n)) × (x ⊗ fl.of_int (pos n) ≼ fl.of_int (pos n))
  pub ceil_between :
      (x : F) (n : ℕ)
      → nought ≺ x
      → x ≼ fl.of_int (pos n)
      → n ≤ max_exact
      → (k : ℕ) × (fl.to_int (stats.ceil x) ≡ pos (suc k)) × (k < n)

module _ {F : Type 0} ⦃fl : Float64 F⦄ where
  length-insert : (x : F) (xs : List F) → length (insert x xs) ≡ suc (length xs)
  unfolding insert
  length-insert x [] = refl
  length-insert x (y ∷ ys) = elim (Bool-cases (is_less x y)) [
    | inl h ↦ rw (h, insert) refl
    | inr h ↦ rw (h, insert) (ap suc (length-insert x ys))
  ]

  length-sorted : (xs : List F) → length (sorted xs) ≡ length xs
  unfolding sorted
  length-sorted [] = refl
  length-sorted (x ∷ xs) = length-insert x (sorted xs) ∙ ap suc (length-sorted xs)

module _ {F : Type 0} ⦃fl : Float64 F⦄ (stats : Stats F) where
  -- The value of rank `q` times the number of values, rounded up.
  abbrev pub IsRanked : List F → F → F → Type 0
  IsRanked xs q v =
      (k : ℕ) × (fl.to_int (stats.ceil (q ⊗ fl.of_int (pos (length xs)))) ≡ pos (suc k))
      × (get_elem? xs k ≡ some v)

  -- How much longer each load took than the oracle's.
  abbrev pub excesses : List F → List F → List F
  excesses [] os = []
  excesses (t ∷ ts) [] = []
  excesses (t ∷ ts) (o ∷ os) = (t ⊖ o) ∷ excesses ts os

  -- The number of loads that took more than twice as long as the oracle's.
  abbrev pub slow_count : List F → List F → ℕ
  slow_count [] os = 0
  slow_count (t ∷ ts) [] = 0
  slow_count (t ∷ ts) (o ∷ os) =
      (if fl.lt (fl.of_int (pos 2) ⊗ o) t then 1 else 0) + slow_count ts os

  -- The line of a policy that took these times, where the oracle took those before.
  abbrev pub IsLine : List F → Named F → List F → Columns F → Type 0
  IsLine os p ts l =
      (l.name ≡ name p)
      × (l.mean ≡ sum_from stats nought ts ⊘ fl.of_int (pos (length ts)))
      × IsRanked (sorted ts) half l.p50
      × IsRanked (sorted ts) (fl.of_int (pos 99) ⊘ fl.of_int (pos 100)) l.p99
      × (get_elem? (sorted ts) (length ts - 1) ≡ some l.max)
      × (l.over_oracle
          ≡ fl.of_int (pos 100) ⊗ sum_from stats nought (excesses ts os) ⊘ sum_from stats nought os)
      × (l.over_twice ≡ slow_count ts os)

  module _ (ranks : HasRanks stats) where
    open ranks use {fraction, product, ceil_between}

    pred_index : (n : ℕ) → pos (suc n) -ℤ pos 1 ≡ pos n
    unfolding ◌-ℤ◌
    pred_index n = ground arith

    quantile-IsRanked :
        (xs : List F) (m n : ℕ)
        → 0 < length xs
        → length xs ≤ max_exact
        → 0 < m
        → m ≤ n
        → n ≤ max_exact
        → let q = fl.of_int (pos m) ⊘ fl.of_int (pos n) in
          (v : F) × (quantile stats xs q ≡ some v) × IsRanked xs q v
    unfolding quantile
    quantile-IsRanked xs m n h few k l small =
        let q = fl.of_int (pos m) ⊘ fl.of_int (pos n) in
        let (low, high) = fraction m n k l small in
        let (above, below) = product q (length xs) low high h in
        let (rank, e, r) =
          ceil_between (q ⊗ fl.of_int (pos (length xs))) (length xs) above below few in
        let (v, found) = get_elem?-lt xs rank r in
        (
          v,
          ap (λ i. at_index xs (i -ℤ pos 1)) e ∙ ap (at_index xs) (pred_index rank) ∙ found,
          (rank, e, found),
        )

    counted :
        (b : Bool) (over rest : ℕ)
        → (if b then over + 1 else over) + rest ≡ over + ((if b then 1 else 0) + rest)
    counted true over rest = omega arith
    counted false over rest = omega arith

    add_times_lem :
        (sum excess : F) (over : ℕ) (ts os : List F)
        → length ts ≡ length os
        → add_times stats (sum, excess, over) ts os
          ≡ some (
            sum_from stats sum ts,
            sum_from stats excess (excesses ts os),
            over + slow_count ts os,
          )
    unfolding add_times sum_from
    add_times_lem sum excess over [] os h = ap (λ n. some (sum, excess, n)) (sym (add-zero over))
    add_times_lem sum excess over (t ∷ ts) [] h = absurd (omega arith)
    add_times_lem sum excess over (t ∷ ts) (o ∷ os) h =
        let b = fl.lt (fl.of_int (pos 2) ⊗ o) t in
        add_times_lem (sum ⊕ t) (excess ⊕ (t ⊖ o)) (if b then over + 1 else over) ts os
          (omega arith)
        ∙ ap
            (λ n.
              some (
                sum_from stats (sum ⊕ t) ts,
                sum_from stats (excess ⊕ (t ⊖ o)) (excesses ts os),
                n,
              ))
            (counted b over (slow_count ts os))

    line_of-IsLine :
        (p : Named F) (ts os : List F)
        → length ts ≡ length os
        → 0 < length ts
        → length ts ≤ max_exact
        → (l : Columns F) × (line_of stats os (name p) ts ≡ some l) × IsLine os p ts l
    unfolding line_of
    line_of-IsLine p ts os same h few =
        let xs = sorted ts in
        let size = length-sorted ts in
        let sums = add_times_lem nought nought 0 ts os same in
        let (a, ea, ra) =
          quantile-IsRanked xs 1 2 (omega arith) (omega arith) (omega arith) (omega arith)
            (omega arith) in
        let (b, eb, rb) =
          quantile-IsRanked xs 99 100 (omega arith) (omega arith) (omega arith) (omega arith)
            (omega arith) in
        let (c, ec) = get_elem?-lt xs (length ts - 1) (omega arith) in
        let last : at_index xs (pos (length xs) -ℤ pos 1) ≡ some c =
          let number : length xs ≡ suc (length ts - 1) = omega arith in
          ap (λ k. at_index xs (pos k -ℤ pos 1)) number
          ∙ ap (at_index xs) (pred_index (length ts - 1))
          ∙ ec in
        let total = sum_from stats nought os in
        (
          record {
            name = name p;
            mean = sum_from stats nought ts ⊘ fl.of_int (pos (length ts));
            p50 = a;
            p99 = b;
            max = c;
            over_oracle = fl.of_int (pos 100) ⊗ sum_from stats nought (excesses ts os) ⊘ total;
            over_twice = 0 + slow_count ts os;
          },
          rw (sums, ea, eb, last, line_of) refl,
          (refl, refl, ra, rb, ec, refl, zero-add (slow_count ts os)),
        )

    -- The lines of `write`: each policy's, from its own times.
    pub lines_of-IsLine :
        (os : List F) (all : List (Named F × List F))
        → 0 < length os
        → length os ≤ max_exact
        → All (λ e. length e.1 ≡ length os) all
        → (ls : List (Columns F)) × (lines_of stats os all ≡ some ls)
          × Matched (λ e l. IsLine os e.0 e.1 l) all ls
    unfolding lines_of
    lines_of-IsLine os [] h few same = ([], refl, tt)
    lines_of-IsLine os ((p, ts) ∷ more) h few (e, es) =
        let (l, el, line) = line_of-IsLine p ts os e (omega arith) (omega arith) in
        let (ls, els, rest) = lines_of-IsLine os more h few es in
        (l ∷ ls, rw (el, els, lines_of) refl, (line, rest))
