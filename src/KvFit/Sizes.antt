-- ===== src/KvFit/Sizes.antt =====
-- What the errors by size are.
use kvflow.Float64.{IsIeee, ◌⊕◌, nought, ◌⊘◌, seconds, ◌⊗◌}
use mathlib.Core.Path.{ap₂}
use kvflow.Prelude.{
  [], ◌∷◌, refl, inl, inr, true, false, ◌≡◌, if◌then◌else◌, Bool-cases, arith, ap, ◌∙◌, sym, ◌+◌,
  ◌==◌, ◌++◌,
}
use mathlib.Core.List.{append_assoc, append-nil}
use kvflow.KvFit.{
  Sums, same, update, add_row, sum_rows, size_error, errors_by_size, no_sums, Float64, List, Row, ℕ,
  Bool, map, ℤ, pos,
}

module _ {F : Type 0} ⦃fl : Float64 F⦄ where
  -- The number of rows of a size.
  abbrev pub count_of : F → List (Row F) → ℕ
  count_of b [] = 0
  count_of b (r ∷ rs) = if same b r.bytes then count_of b rs + 1 else count_of b rs

  -- The sum of the seconds of the rows of a size, in order, after `acc`.
  abbrev pub seconds_of : F → F → List (Row F) → F
  seconds_of b acc [] = acc
  seconds_of b acc (r ∷ rs) = seconds_of b (if same b r.bytes then acc ⊕ r.seconds else acc) rs

  -- The sizes of the rows that no row before them has.
  abbrev pub first_sizes : List (Row F) → List (Row F) → List F
  first_sizes earlier [] = []
  first_sizes earlier (r ∷ rs) =
      let rest = first_sizes (r ∷ earlier) rs in
      if count_of r.bytes earlier == 0 then r.bytes ∷ rest else rest

  abbrev Respects : {A : Type 0} → (F → A) → Type 0
  Respects f = (b c : F) → same b c ≡ true → f b ≡ f c

  module _ (laws : IsIeee F) where
    le-right : (b c k : F) → fl.le b c ≡ true → fl.le c b ≡ true → fl.le b k ≡ fl.le c k
    le-right b c k up down = elim (Bool-cases (fl.le b k)) [
      | inl e ↦ e ∙ sym (laws.le_trans c b k down e)
      | inr e ↦ elim (Bool-cases (fl.le c k)) [
        | inl d ↦ cc (laws.le_trans b c k up d)
        | inr d ↦ e ∙ sym d
      ]
    ]

    le-left : (b c k : F) → fl.le b c ≡ true → fl.le c b ≡ true → fl.le k b ≡ fl.le k c
    le-left b c k up down = elim (Bool-cases (fl.le k b)) [
      | inl e ↦ e ∙ sym (laws.le_trans k b c e up)
      | inr e ↦ elim (Bool-cases (fl.le k c)) [
        | inl d ↦ cc (laws.le_trans k c b d down)
        | inr d ↦ e ∙ sym d
      ]
    ]

    same-Respects : (k : F) → Respects (λ b. same b k)
    same-Respects k b c h =
        let up : fl.le b c ≡ true = ground (arith, h) in
        let down : fl.le c b ≡ true = ground (arith, h) in
        rw (le-right b c k up down, le-left b c k up down) refl

    update-Respects :
        {A : Type 0} (f : F → A) (k : F) (v : A) → Respects f → Respects (update f k v)
    update-Respects f k v h b c e =
        ap (λ t. if t then v else f b) (same-Respects k b c e)
        ∙ ap (λ x. if same c k then v else x) (h b c e)

    count_of-Respects : (rows : List (Row F)) → Respects (λ b. count_of b rows)
    count_of-Respects [] b c e = refl
    count_of-Respects (r ∷ rs) b c e =
        let ih = count_of-Respects rs b c e in
        ap (λ n. if same b r.bytes then n + 1 else n) ih
        ∙ ap (λ t. if t then count_of c rs + 1 else count_of c rs) (same-Respects r.bytes b c e)

    -- The sums after some rows.
    sum_rows-sum :
        (s : Sums F) (rows : List (Row F)) (b : F)
        → Respects s.sum
        → (sum_rows s rows).sum b ≡ seconds_of b (s.sum b) rows
    unfolding sum_rows
    sum_rows-sum s [] b h = refl
    sum_rows-sum s (r ∷ rs) b h =
        let ih =
          sum_rows-sum (add_row s r) rs b
            (update-Respects s.sum r.bytes (s.sum r.bytes ⊕ r.seconds) h) in
        ih ∙ ap (λ x. seconds_of b x rs) (here (same b r.bytes) refl)
      where
        here :
            (t : Bool)
            → same b r.bytes ≡ t
            → (if t then s.sum r.bytes ⊕ r.seconds else s.sum b)
              ≡ (if t then s.sum b ⊕ r.seconds else s.sum b)
        here true e = ap (λ x. x ⊕ r.seconds) (sym (h b r.bytes e))
        here false e = refl

    abbrev Tracks : Sums F → List (Row F) → Type 0
    Tracks s earlier = (b : F) → s.count b ≡ count_of b earlier

    Tracks-row :
        (s : Sums F) (r : Row F) (earlier : List (Row F))
        → Tracks s earlier
        → Tracks (add_row s r) (r ∷ earlier)
    Tracks-row s r earlier h b = here (same b r.bytes) refl
      where
        here :
            (t : Bool)
            → same b r.bytes ≡ t
            → (if t then s.count r.bytes + 1 else s.count b)
              ≡ (if t then count_of b earlier + 1 else count_of b earlier)
        here true e = ap (λ n. n + 1) (h r.bytes ∙ sym (count_of-Respects earlier b r.bytes e))
        here false e = h b

    sum_rows-count :
        (s : Sums F) (rows : List (Row F)) (b : F)
        → Respects s.count
        → (sum_rows s rows).count b ≡ s.count b + count_of b rows
    unfolding sum_rows
    sum_rows-count s [] b h = omega arith
    sum_rows-count s (r ∷ rs) b h =
        let ih =
          sum_rows-count (add_row s r) rs b
            (update-Respects s.count r.bytes (s.count r.bytes + 1) h) in
        ih ∙ here (same b r.bytes) refl
      where
        here :
            (t : Bool)
            → same b r.bytes ≡ t
            → (if t then s.count r.bytes + 1 else s.count b) + count_of b rs
              ≡ s.count b + (if t then count_of b rs + 1 else count_of b rs)
        here true e = omega (arith, h b r.bytes e)
        here false e = refl

    sum_rows-order :
        (s : Sums F) (rows earlier : List (Row F))
        → Tracks s earlier
        → (sum_rows s rows).order ≡ s.order ++ first_sizes earlier rows
    unfolding sum_rows
    sum_rows-order s [] earlier h = sym (append-nil s.order)
    sum_rows-order s (r ∷ rs) earlier h =
        let rest = first_sizes (r ∷ earlier) rs in
        sum_rows-order (add_row s r) rs (r ∷ earlier) (Tracks-row s r earlier h)
        ∙ here rest (s.count r.bytes == 0)
        ∙ ap (λ n. s.order ++ (if n == 0 then r.bytes ∷ rest else rest)) (h r.bytes)
      where
        here :
            (rest : List F) (t : Bool)
            → (if t then s.order ++ (r.bytes ∷ []) else s.order) ++ rest
              ≡ s.order ++ (if t then r.bytes ∷ rest else rest)
        here rest true = append_assoc s.order (r.bytes ∷ []) rest
        here rest false = refl

    map-eq :
        {A B : Type 0} (f g : A → B) (xs : List A) → ((x : A) → f x ≡ g x) → map f xs ≡ map g xs
    map-eq f g [] h = refl
    map-eq f g (x ∷ xs) h = rw (h x, map-eq f g xs h) refl

    -- There is an error for each size, in the order in which they first appear: its measured time is the
    -- mean of the rows of that size, their seconds added up in order and divided by their number, and its
    -- predicted time is the line's. Sizes are the same where they compare equal as floats.
    pub errors_by_size_lem :
        (rows : List (Row F)) (startup : ℤ) (seconds_per_byte : F)
        → errors_by_size rows startup seconds_per_byte
          ≡ map
              (λ b. record {
                bytes = b;
                measured = seconds_of b nought rows ⊘ fl.of_int (pos (count_of b rows));
                predicted = seconds startup ⊕ b ⊗ seconds_per_byte;
              })
              (first_sizes [] rows)
    unfolding errors_by_size
    errors_by_size_lem rows startup seconds_per_byte =
        let s = sum_rows no_sums rows in
        ap (map (size_error startup seconds_per_byte s))
          (sum_rows-order no_sums rows [] (λ b. refl))
        ∙ map-eq _ _ (first_sizes [] rows) (λ b.
          ap₂
            (λ x n. record {
              bytes = b;
              measured = x ⊘ fl.of_int (pos n);
              predicted = seconds startup ⊕ b ⊗ seconds_per_byte;
            })
            (sum_rows-sum no_sums rows b (λ x y e. refl))
            (sum_rows-count no_sums rows b (λ x y e. refl) ∙ omega arith))
