-- ===== src/KvFit.antt =====
-- cmd/kvfit/main.go: the selection of transfers, the line through them, and how far each size is from it.
pub mod Sizes
pub mod Sections
pub mod Fitted
use kvflow.Learner.{observe_all}
use kvflow.Learner.Line.{new_line, line}
use kvflow.XferCsv.{Row}
use kvflow.Int.{pos, ℤ, ltb_ℤ}
use kvflow.Float64.{Float64, nought, one, ◌⊘◌, ◌⊗◌, seconds, ◌⊖◌, ◌⊕◌}
use kvflow.Prelude.{
  [], ◌∷◌, zero, suc, none, some, true, false, ◌>>=◌, List, Bool, ℕ, if◌then◌else◌, not, ◌&&◌, ◌==◌,
  map, Option, ◌++◌, Result, ◌+◌, ok,
}

-- How far one transfer size's mean measured time is from the line.
pub record SizeError (F : Type 0) : Type 0 where
  pub bytes : F
  pub measured : F
  pub predicted : F

-- The sizes in order, and the maps `sum` and `count`, which give 0 for a missing key.
pub record Sums (F : Type 0) : Type 0 where
  pub order : List F
  pub sum : F → F
  pub count : F → ℕ

abbrev pub same_mode : Bool → Bool → Bool
same_mode a b = if a then b else not b

module _ {F : Type 0} ⦃fl : Float64 F⦄ where
  -- `e.percent()`
  abbrev pub percent : SizeError F → F
  percent e = fl.of_int (pos 100) ⊗ (e.predicted ⊖ e.measured) ⊘ e.measured

  -- `a == b` on float64, as the maps compare their keys.
  abbrev pub same : F → F → Bool
  same a b = fl.le a b && fl.le b a

  abbrev pub update : {A : Type 0} → (F → A) → F → A → F → A
  update f k v b = if same b k then v else f b

  -- One round of the loop over the rows.
  abbrev pub add_row : Sums F → Row F → Sums F
  add_row s r = record {
    order = if s.count r.bytes == 0 then s.order ++ (r.bytes ∷ []) else s.order;
    sum = update s.sum r.bytes (s.sum r.bytes ⊕ r.seconds);
    count = update s.count r.bytes (s.count r.bytes + 1);
  }

  unfoldable pub sum_rows : Sums F → List (Row F) → Sums F
  sum_rows s [] = s
  sum_rows s (r ∷ rs) = sum_rows (add_row s r) rs

  abbrev pub size_error : ℤ → F → Sums F → F → SizeError F
  size_error startup seconds_per_byte s b = record {
    bytes = b;
    measured = s.sum b ⊘ fl.of_int (pos (s.count b));
    predicted = seconds startup ⊕ b ⊗ seconds_per_byte;
  }

  abbrev pub no_sums : Sums F
  no_sums = record { order = []; sum = λ b. nought; count = λ b. 0 }

  unfoldable pub errors_by_size : List (Row F) → ℤ → F → List (SizeError F)
  errors_by_size rows startup seconds_per_byte =
      let s = sum_rows no_sums rows in map (size_error startup seconds_per_byte s) s.order

  unfoldable pub filter : List (Row F) → Bool → ℤ → List (Row F)
  filter [] reuse min_round = []
  filter (r ∷ rs) reuse min_round =
      let rest = filter rs reuse min_round in
      if same_mode r.reuse reuse && not (ltb_ℤ r.round min_round) then r ∷ rest else rest

  -- 1e-6
  abbrev pub fit_alpha : F
  fit_alpha = one ⊘ fl.of_int (pos 1_000_000)

  -- `none` is an index out of range.
  unfoldable pub fit : List (Row F) → Option (Result (ℤ × F))
  fit [] = none
  fit (r ∷ rs) = some (
      new_line fit_alpha (r.seconds ⊘ r.bytes) >>= λ l.
      let l' = observe_all line.observe l (map (λ x. (x.bytes, x.seconds)) (r ∷ rs)) in
      ok (line.startup l', line.seconds_per_byte l'))
