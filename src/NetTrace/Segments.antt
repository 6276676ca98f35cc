-- ===== src/NetTrace/Segments.antt =====
-- Which segment of a trace a time falls into.
use kvflow.Prelude.{
  zero, suc, refl, inl, inr, true, false, ◌≤◌, ◌<◌, ◌≡◌, ◌-◌, Bool-cases, arith, ◌⊎◌, ℕ_trichotomy,
  ◌+◌, ◌/◌,
}
use kvflow.Float64.{Float64}
use kvflow.NetTrace.{Trace, search, ends_after, segment, ℕ, Bool, length, ltb}

-- Once true, always true, up to `n`.
abbrev pub IsMonotone : (ℕ → Bool) → ℕ → Type 0
IsMonotone f n = (k m : ℕ) → k ≤ m → m < n → f k ≡ true → f m ≡ true

-- The first index from `i` below `j` at which `f` is true, or `j`.
abbrev pub IsFirst : (ℕ → Bool) → ℕ → ℕ → ℕ → Type 0
IsFirst f i j r = (i ≤ r) × (r ≤ j) × ((k : ℕ) → i ≤ k → k < r → f k ≡ false) × (r < j → f r ≡ true)

-- Below a false index a monotone test is false.
false_before :
    (f : ℕ → Bool) (n m k : ℕ) → IsMonotone f n → m < n → f m ≡ false → k ≤ m → f k ≡ false
false_before f n m k mono lt z le = elim (Bool-cases (f k)) [
  | inl t ↦ cc (mono k m le lt t)
  | inr e ↦ e
]

-- The first of the upper half is the first of both, if the middle is false.
IsFirst-up :
    (f : ℕ → Bool) (n i m j r : ℕ)
    → IsMonotone f n
    → m < n
    → f m ≡ false
    → i ≤ m
    → IsFirst f (m + 1) j r
    → IsFirst f i j r
IsFirst-up f n i m j r mono lt z le (a, b, c, e) = (
  omega arith,
  b,
  λ k q s. elim (Bool-cases (ltb m k)) [
    | inl g ↦ c k (ground arith) s
    | inr g ↦ false_before f n m k mono lt z (ground arith)
  ],
  e,
)

IsFirst-down : (f : ℕ → Bool) (i m j r : ℕ) → f m ≡ true → m ≤ j → IsFirst f i m r → IsFirst f i j r
IsFirst-down f i m j r t le (a, b, c, e) = (
  a,
  omega arith,
  c,
  λ q. elim (ℕ_trichotomy r m) [
    | inl lt ↦ e lt
    | inr (inl same) ↦ rw same t
    | inr (inr gt) ↦ absurd (omega arith)
  ],
)

search_lem :
    (rounds n i j : ℕ) (f : ℕ → Bool)
    → IsMonotone f n
    → j ≤ n
    → i ≤ j
    → j - i ≤ rounds
    → (j < n → f j ≡ true)
    → IsFirst f i j (search rounds f i j)
unfolding search
search_lem zero n i j f mono h p d end =
    (omega arith, omega arith, λ k q r. absurd (omega arith), λ q. absurd (omega arith))
search_lem (suc rounds) n i j f mono h p d end = elim (Bool-cases (ltb i j)) [
  | inr done ↦
      rw (done, search) (omega arith, p, λ k q r. absurd (omega arith), λ q. absurd (ground arith))
  | inl more ↦
      let m = (i + j) / 2 in
      let lt : i < j = ground arith in
      elim (Bool-cases (f m)) [
        | inl t ↦
            rw (more, t, search)
              (IsFirst-down f i m j _ t (omega arith)
                (search_lem rounds n i m f mono (omega arith) (omega arith) (omega arith) (λ q. t)))
        | inr z ↦
            rw (more, z, search)
              (IsFirst-up f n i m j _ mono (omega arith) z (omega arith)
                (search_lem rounds n (m + 1) j f mono h (omega arith) (omega arith) end))
      ]
]

module _ {F : Type 0} ⦃fl : Float64 F⦄ where
  -- The ends of the segments do not decrease.
  abbrev pub IsAscending : Trace F → Type 0
  IsAscending t =
      (k m : ℕ) (at : F)
      → k ≤ m
      → m ≤ length t.front
      → ends_after t at k ≡ true
      → ends_after t at m ≡ true

  -- The segment of a time in a trace whose ends do not decrease is the first that ends after it, or the
  -- last one if none does.
  pub segment_lem :
      (t : Trace F) (at : F)
      → IsAscending t
      → let i = segment t at in
        (i ≤ length t.front)
        × ((k : ℕ) → k < i → ends_after t at k ≡ false)
        × ((ends_after t at i ≡ true) ⊎ (i ≡ length t.front))
  unfolding segment
  segment_lem t at asc =
      let n = length t.front + 1 in
      let f = ends_after t at in
      let (a, b, c, e) =
        search_lem n n 0 n f (λ k m p q. asc k m at p (omega arith)) (omega arith) (omega arith)
          (omega arith) (λ q. absurd (omega arith)) in
      let r = search n f 0 n in
      elim (Bool-cases (ltb (length t.front) r)) [
        | inl past ↦ rw past (omega arith, λ k q. c k (omega arith) (ground arith), inr refl)
        | inr within ↦ rw within (ground arith, λ k q. c k (omega arith) q, inl (e (ground arith)))
      ]
