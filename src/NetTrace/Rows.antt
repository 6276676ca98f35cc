-- ===== src/NetTrace/Rows.antt =====
-- The trace that `FromRows` makes of a run.
use kvflow.Int.{pos}
use kvflow.Prelude.{
  [], ◌∷◌, zero, suc, some, refl, inl, inr, true, false, Bool-cases, ◌≡◌, ◌≤◌, All, ◌≢◌, arith, ◌<◌,
  ◌+◌, ap, ◌∙◌,
}
use mathlib.Core.Option.{some-injective}
use kvflow.Float64.{Float64, IsIeee, nought, ◌≼◌, ◌≺◌, ◌⊕◌, ◌⊘◌}
use kvflow.XferCsv.{Row}
use kvflow.NetTrace.{
  Segment, Trace, nth, segment_of, is_bad_row, add_rows, from_rows, List, ℕ, get_elem?, length, ok,
  err, bad_row, no_rows,
}
use kvflow.NetTrace.Segments.{IsAscending}

module _ {F : Type 0} ⦃fl : Float64 F⦄ where
  -- From an end on, the ends of the segments do not decrease.
  abbrev Rising : F → List (Segment F) → Segment F → Type 0
  Rising e [] last = e ≼ last.end
  Rising e (s ∷ rest) last = (e ≼ s.end) × Rising s.end rest last

  -- Segment by segment, the rates are the rows' own.
  abbrev HasRates : List (Row F) → List (Segment F) → Segment F → Type 0
  HasRates [] front last = ⊥
  HasRates (r ∷ []) [] last = last.rate ≡ r.bytes ⊘ r.seconds
  HasRates (r ∷ []) (s ∷ rest) last = ⊥
  HasRates (r ∷ (r' ∷ rs)) [] last = ⊥
  HasRates (r ∷ (r' ∷ rs)) (s ∷ rest) last =
      (s.rate ≡ r.bytes ⊘ r.seconds) × HasRates (r' ∷ rs) rest last

  abbrev pub IsGoodRow : Row F → Type 0
  IsGoodRow r = (nought ≺ r.seconds) × (nought ≺ r.bytes)

  -- A trace of a run: its rates are those of the rows, and its ends do not decrease.
  pub record IsTraceOf (rows : List (Row F)) (t : Trace F) : Type 0 where
    pub rates :
        (i : ℕ) (r : Row F) → get_elem? rows i ≡ some r → (nth t i).rate ≡ r.bytes ⊘ r.seconds
    pub size : length rows ≡ length t.front + 1
    pub ascending : IsAscending t

  module _ (laws : IsIeee F) where
    Rising-nth :
        (e : F) (front : List (Segment F)) (last : Segment F) (m : ℕ)
        → Rising e front last
        → m ≤ length front
        → e ≼ (nth (record { front = front; last = last }) m).end
    Rising-nth e [] last m h le = h
    Rising-nth e (s ∷ rest) last zero (h, hs) le = h
    Rising-nth e (s ∷ rest) last (suc m) (h, hs) le =
        laws.le_trans e s.end _ h (Rising-nth s.end rest last m hs (omega arith))

    Rising-le :
        (e : F) (front : List (Segment F)) (last : Segment F) (k m : ℕ)
        → Rising e front last
        → k ≤ m
        → m ≤ length front
        → (nth (record { front = front; last = last }) k).end
          ≼ (nth (record { front = front; last = last }) m).end
    Rising-le e [] last k m h p q = laws.le_refl last.end (laws.numbers_of_le e last.end h).1
    Rising-le e (s ∷ rest) last zero zero (h, hs) p q =
        laws.le_refl s.end (laws.numbers_of_le e s.end h).1
    Rising-le e (s ∷ rest) last zero (suc m) (h, hs) p q =
        Rising-nth s.end rest last m hs (omega arith)
    Rising-le e (s ∷ rest) last (suc k) zero (h, hs) p q = absurd (omega arith)
    Rising-le e (s ∷ rest) last (suc k) (suc m) (h, hs) p q =
        Rising-le s.end rest last k m hs (omega arith) (omega arith)

    lt_of_lt-le : (x y z : F) → x ≺ y → y ≼ z → x ≺ z
    lt_of_lt-le x y z h k =
        let (nx, ny) = laws.numbers_of_lt x y h in
        let nz = (laws.numbers_of_le y z k).1 in
        elim (Bool-cases (fl.le z x)) [
          | inl back ↦
              let down = laws.le_trans y z x k back in cc (laws.lt-eq-not-le x y nx ny, down, h)
          | inr up ↦ rw (laws.lt-eq-not-le x z nx nz, up) refl
        ]

    Rising-IsAscending : (e : F) (t : Trace F) → Rising e t.front t.last → IsAscending t
    Rising-IsAscending e t h k m at p q lt =
        lt_of_lt-le at (nth t k).end (nth t m).end lt (Rising-le e t.front t.last k m h p q)

    good_row : (r : Row F) → IsGoodRow r → is_bad_row r ≡ false
    good_row r (s, b) = rw (s, b) refl

    add_rows_lem :
        (i : ℕ) (end : F) (r : Row F) (rs : List (Row F))
        → nought ≼ end
        → All IsGoodRow (r ∷ rs)
        → (t : Trace F) × (add_rows i end r rs ≡ ok t)
          × Rising end t.front t.last
          × HasRates (r ∷ rs) t.front t.last
    unfolding add_rows
    add_rows_lem i end r [] h (g, _) = (
      record { front = []; last = segment_of end r },
      rw (good_row r g, add_rows) refl,
      laws.le-add_right end r.seconds h (laws.le_of_lt nought r.seconds g.0),
      refl,
    )
    add_rows_lem i end r (r' ∷ rs) h (g, gs) =
        let up = laws.le_of_lt nought r.seconds g.0 in
        let (t, e, rising, rates) =
          add_rows_lem (i + 1) (end ⊕ r.seconds) r' rs (laws.add_nonneg end r.seconds h up) gs in
        (
          record t { front = segment_of end r ∷ t.front },
          rw (good_row r g, e, add_rows) refl,
          (laws.le-add_right end r.seconds h up, rising),
          (refl, rates),
        )

    HasRates-nth :
        (rows : List (Row F)) (front : List (Segment F)) (last : Segment F)
        → HasRates rows front last
        → (length rows ≡ length front + 1)
          × ((i : ℕ) (r : Row F)
              → get_elem? rows i ≡ some r
              → (nth (record { front = front; last = last }) i).rate ≡ r.bytes ⊘ r.seconds)
    HasRates-nth [] front last h = absurd h
    HasRates-nth (r ∷ []) [] last h = (omega arith, λ i x e. by_index i x e)
      where
        by_index :
            (i : ℕ) (x : Row F) → get_elem? (r ∷ []) i ≡ some x → last.rate ≡ x.bytes ⊘ x.seconds
        by_index zero x e = let same : r ≡ x = some-injective _ _ e in rw (← same) h
        by_index (suc i) x e = cc
    HasRates-nth (r ∷ []) (s ∷ rest) last h = absurd h
    HasRates-nth (r ∷ (r' ∷ rs)) [] last h = absurd h
    HasRates-nth (r ∷ (r' ∷ rs)) (s ∷ rest) last (h, hs) =
        let (n, all) = HasRates-nth (r' ∷ rs) rest last hs in (omega (arith, n), by_index all)
      where
        by_index :
            ((i : ℕ) (x : Row F)
              → get_elem? (r' ∷ rs) i ≡ some x
              → (nth (record { front = rest; last = last }) i).rate ≡ x.bytes ⊘ x.seconds)
            → (i : ℕ) (x : Row F) → get_elem? (r ∷ (r' ∷ rs)) i ≡ some x
            → (nth (record { front = s ∷ rest; last = last }) i).rate ≡ x.bytes ⊘ x.seconds
        by_index all zero x e = let same : r ≡ x = some-injective _ _ e in rw (← same) h
        by_index all (suc i) x e = all i x e

    add_rows_bad :
        (i j : ℕ) (end : F) (r bad : Row F) (rs : List (Row F))
        → get_elem? (r ∷ rs) j ≡ some bad
        → is_bad_row bad ≡ true
        → ((k : ℕ) (x : Row F) → k < j → get_elem? (r ∷ rs) k ≡ some x → is_bad_row x ≡ false)
        → add_rows i end r rs ≡ err (bad_row (i + j + 1))
    unfolding add_rows
    add_rows_bad i zero end r bad [] e b before =
        let same : r ≡ bad = some-injective _ _ e in
        rw (same, b, add_rows) (ap (λ n. err (bad_row n)) (omega arith))
    add_rows_bad i zero end r bad (r' ∷ rs) e b before =
        let same : r ≡ bad = some-injective _ _ e in
        rw (same, b, add_rows) (ap (λ n. err (bad_row n)) (omega arith))
    add_rows_bad i (suc j) end r bad [] e b before = cc
    add_rows_bad i (suc j) end r bad (r' ∷ rs) e b before =
        let ih =
          add_rows_bad (i + 1) j (end ⊕ r.seconds) r' bad rs e b
            (λ k x lt. before (suc k) x (omega arith)) in
        rw (before 0 r (omega arith) refl, ih, add_rows) (ap (λ n. err (bad_row n)) (omega arith))

    -- A run of rows whose bytes and seconds are all positive makes a trace with a segment for each row, at
    -- the row's own rate, whose ends do not decrease. A run with a row that is not so is an error that
    -- names the first such row, from 1, and an empty run is an error.
    pub from_rows_lem :
        (rows : List (Row F))
        → (rows ≢ []
            → All IsGoodRow rows
            → (t : Trace F) × (from_rows rows ≡ ok t) × IsTraceOf rows t)
          × ((j : ℕ) (bad : Row F)
              → get_elem? rows j ≡ some bad
              → is_bad_row bad ≡ true
              → ((k : ℕ) (x : Row F) → k < j → get_elem? rows k ≡ some x → is_bad_row x ≡ false)
              → from_rows rows ≡ err (bad_row (j + 1)))
          × (rows ≡ [] → from_rows rows ≡ err no_rows)
    unfolding from_rows
    from_rows_lem [] = (λ h. absurd (h refl), λ j bad e. cc, λ h. refl)
    from_rows_lem (r ∷ rs) = (
      λ h good.
          let zero_le : ◌≼◌ {F = F} nought nought =
            laws.of_int_mono (pos 0) (pos 0) (omega arith) in
          let (t, e, rising, rates) = add_rows_lem 0 nought r rs zero_le good in
          let (size, each) = HasRates-nth (r ∷ rs) t.front t.last rates in
          (
            t,
            e,
            record { rates = each; size = size; ascending = Rising-IsAscending nought t rising },
          ),
      λ j bad e b before.
          add_rows_bad 0 j nought r bad rs e b before ∙ ap (λ n. err (bad_row n)) (omega arith),
      λ h. ground arith,
    )
