-- ===== src/NetTrace.antt =====
-- internal/nettrace/nettrace.go: a recorded run of transfers as bandwidth over time.
pub mod Segments
pub mod Rows
use kvflow.Prelude.{
  ℕ, zero, suc, ◌+◌, ◌/◌, Bool, true, false, not, ◌||◌, Option, none, some, List, [], ◌∷◌, Result,
  ok, err, ◌>>=◌, length, get_elem?, drop, ltb, if◌then◌else◌, no_rows, bad_row,
}
use kvflow.Float64.{Float64, ◌⊕◌, ◌⊖◌, ◌⊗◌, ◌⊘◌, nought}
use kvflow.XferCsv.{Row}

-- The end of a segment of time and its rate: `ends[i]` and `rates[i]`.
pub record Segment (F : Type 0) : Type 0 where
  pub end : F
  pub rate : F

-- A trace has at least one segment, since `FromRows` refuses an empty run and nothing else makes one.
pub record Trace (F : Type 0) : Type 0 where
  pub front : List (Segment F)
  pub last : Segment F

-- The loop of sort.Search(n, f): the rounds left, and the bounds `i` and `j`. A round halves `j - i`,
-- so `n` rounds are enough.
unfoldable pub search : ℕ → (ℕ → Bool) → ℕ → ℕ → ℕ
search zero f i j = i
search (suc rounds) f i j =
    let h = (i + j) / 2 in
    let up = search rounds f (h + 1) j in
    let down = search rounds f i h in if ltb i j then (if f h then down else up) else i

abbrev pub at_most : ℕ → ℕ → ℕ
at_most i n = if ltb n i then n else i

module _ {F : Type 0} ⦃fl : Float64 F⦄ where
  abbrev pub segment_of : F → Row F → Segment F
  segment_of end r = record { end = end ⊕ r.seconds; rate = r.bytes ⊘ r.seconds }

  abbrev pub is_bad_row : Row F → Bool
  is_bad_row r = not (fl.lt nought r.seconds) || not (fl.lt nought r.bytes)

  -- The loop of `FromRows` from index `i`, where the run before it ended at `end`.
  unfoldable pub add_rows : ℕ → F → Row F → List (Row F) → Result (Trace F)
  add_rows i end r [] =
      if is_bad_row r
      then err (bad_row (i + 1))
      else ok (record { front = []; last = segment_of end r })
  add_rows i end r (r' ∷ rs) =
      let rest = add_rows (i + 1) (end ⊕ r.seconds) r' rs in
      if is_bad_row r
      then err (bad_row (i + 1))
      else rest >>= λ t. ok (record t { front = segment_of end r ∷ t.front })

  unfoldable pub from_rows : List (Row F) → Result (Trace F)
  from_rows [] = err no_rows
  from_rows (r ∷ rs) = add_rows 0 nought r rs

  abbrev pub duration : Trace F → F
  duration t = t.last.end

  -- The segment of an index up to `len(t.ends) - 1`.
  abbrev pub nth : Trace F → ℕ → Segment F
  nth t i = elim (get_elem? t.front i) [ none ↦ t.last | some s ↦ s ]

  -- `t.ends[i] > at`
  abbrev pub ends_after : Trace F → F → ℕ → Bool
  ends_after t at i = fl.lt at (nth t i).end

  unfoldable pub segment : Trace F → F → ℕ
  segment t at =
      at_most (search (length t.front + 1) (ends_after t at) 0 (length t.front + 1))
        (length t.front)

  unfoldable pub rate_at : Trace F → F → F
  rate_at t at = (nth t (segment t at)).rate

  -- The loop of `SendTime` over the segments that are left: the last one takes all.
  unfoldable pub send_over : List (Segment F) → Segment F → F → F → F → F
  send_over [] last now bytes at = now ⊕ bytes ⊘ last.rate ⊖ at
  send_over (s ∷ rest) last now bytes at =
      let fits = (s.end ⊖ now) ⊗ s.rate in
      let later = send_over rest last s.end (bytes ⊖ fits) at in
      if fl.le bytes fits then now ⊕ bytes ⊘ s.rate ⊖ at else later

  unfoldable pub send_time : Trace F → F → F → F
  send_time t at bytes = send_over (drop (segment t at) t.front) t.last at bytes at
