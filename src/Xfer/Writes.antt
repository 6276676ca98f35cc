-- ===== src/Xfer/Writes.antt =====
-- The writes of `Send`.
use kvflow.Prelude.{
  [], ◌∷◌, zero, suc, none, some, refl, inl, inr, ◌-◌, ap, ◌∙◌, ◌<◌, ◌≤◌, ◌≡◌, All, ◌⊎◌, length,
  arith, Option-cases,
}
use kvflow.Xfer.{
  send_chunks, Chunks, wrote, smaller, chunk_size, NetError, List, ℕ, ◌∷◌, Option, ◌+◌,
}

abbrev pub total : List ℕ → ℕ
total [] = 0
total (k ∷ ks) = k + total ks

-- A write of at least one byte and at most a chunk.
abbrev pub IsChunk : ℕ → Type 0
IsChunk k = (0 < k) × (k ≤ chunk_size)

-- The write that failed, after those that worked: it wrote at most the bytes that were left.
pub record IsBroken (i left : ℕ) (write_error : ℕ → Option (ℕ × NetError)) (c : Chunks)
    : Type 0 where
  pub amount : ℕ
  pub cause : NetError
  pub failing : write_error (i + length c.written) ≡ some (amount, cause)
  pub error : c.error ≡ some cause
  pub short : total c.written < left
  pub within : total c.written + c.part ≤ left

-- With fuel for each byte the loop ends: it wrote chunks of all the bytes, or stopped at the first write
-- that failed, short of them.
pub send_chunks_lem :
    (fuel i left : ℕ) (write_error : ℕ → Option (ℕ × NetError))
    → left ≤ fuel
    → (c : Chunks) × (send_chunks fuel i write_error left ≡ some c)
      × All IsChunk c.written
      × ((j : ℕ) → j < length c.written → write_error (i + j) ≡ none)
      × (((c.error ≡ none) × (c.part ≡ 0) × (total c.written ≡ left))
          ⊎ IsBroken i left write_error c)
unfolding send_chunks
send_chunks_lem fuel i zero write_error h = (
  record { written = []; part = 0; error = none },
  refl,
  tt,
  λ j p. absurd (omega arith),
  inl (refl, refl, refl),
)
send_chunks_lem zero i (suc left) write_error h = absurd (omega arith)
send_chunks_lem (suc fuel) i (suc left) write_error h = elim (Option-cases (write_error i)) [
  | inr ((m, e), q) ↦ (
    record { written = []; part = smaller m (smaller (suc left) chunk_size); error = some e },
    rw (q, send_chunks) refl,
    tt,
    λ j p. absurd (omega arith),
    inr (record {
      amount = m;
      cause = e;
      failing = (let same : i + 0 ≡ i = omega arith in ap write_error same ∙ q);
      error = refl;
      short = omega arith;
      within = ground arith;
    }),
  )
  | inl q ↦
      let k = smaller (suc left) chunk_size in
      let (c, r, all, fine, end) =
        send_chunks_lem fuel (i + 1) (suc left - k) write_error (ground arith) in
      (
        wrote k c,
        rw (q, r, send_chunks) refl,
        (ground arith, all),
        worked i (length c.written) write_error q fine,
        elim end [
          | inl (n, z, t) ↦ inl (n, z, ground arith)
          | inr b ↦ inr (record {
            amount = b.amount;
            cause = b.cause;
            failing =
                (let same : i + suc (length c.written) ≡ i + 1 + length c.written = omega arith in
                  ap write_error same ∙ b.failing);
            error = b.error;
            short = ground (arith, b.short);
            within = ground (arith, b.within);
          })
        ],
      )
]
  where
    worked :
        (i n : ℕ) (write_error : ℕ → Option (ℕ × NetError))
        → write_error i ≡ none
        → ((j : ℕ) → j < n → write_error (i + 1 + j) ≡ none)
        → (j : ℕ) → j < suc n
        → write_error (i + j) ≡ none
    worked i n write_error q fine zero p =
        let same : i + 0 ≡ i = omega arith in ap write_error same ∙ q
    worked i n write_error q fine (suc j) p =
        let same : i + suc j ≡ i + 1 + j = omega arith in ap write_error same ∙ fine j (omega arith)
