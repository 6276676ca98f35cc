-- ===== src/Xfer/Sending.antt =====
-- What a call of `Send` put on the wire.
use mathlib.Core.List.{append_assoc, append-nil}
use kvflow.Prelude.{
  [], ◌∷◌, zero, suc, none, some, refl, inl, inr, ℕ, Option, List, ◌≡◌, All, ◌≤◌, ◌<◌, ◌≢◌, ◌+◌,
  ◌-◌, Option-cases, arith, ◌⊎◌, ◌++◌, ap, sym, ◌∙◌, length, replicate, take, drop, take-drop,
  replicate_add,
}
use kvflow.Xfer.{
  Sent, Chunks, End, NetError, send, to_bytes, to_unsigned, to_send, after_chunks, on_wire, zeros,
  short_read, ℤ,
}
use kvflow.Xfer.Writes.{total, IsChunk, IsBroken, send_chunks_lem}

-- The write of the header failed: a part of it was written, and nothing after it.
abbrev pub HeaderFails : (ℕ → Option (ℕ × NetError)) → ℤ → Sent → Type 0
HeaderFails write_error n s =
    (m : ℕ) × (e : NetError) × (write_error 0 ≡ some (m, e))
    × (s.header ≡ take m (to_bytes 8 (to_unsigned n)))
    × (s.written ≡ [])
    × (s.part ≡ 0)
    × (s.error ≡ some e)

-- The write after some chunks failed, short of the length.
abbrev pub ChunkFails : (ℕ → Option (ℕ × NetError)) → ℤ → Sent → Type 0
ChunkFails write_error n s =
    (m : ℕ) × (e : NetError) × (write_error (1 + length s.written) ≡ some (m, e))
    × ((j : ℕ) → j < 1 + length s.written → write_error j ≡ none)
    × (s.error ≡ some e)
    × (total s.written < to_send n)

-- All was written; the error is that of reading the reply.
abbrev pub WritesAll : (ℕ → Option (ℕ × NetError)) → List ℕ → ℤ → Sent → Type 0
WritesAll write_error replies n s =
    ((j : ℕ) → j < 1 + length s.written → write_error j ≡ none)
    × (s.part ≡ 0)
    × (total s.written ≡ to_send n)
    × (((replies ≢ []) × (s.error ≡ none)) ⊎ ((replies ≡ []) × (e : NetError) × (s.error ≡ some e)))

abbrev pub Goes : (ℕ → Option (ℕ × NetError)) → List ℕ → ℤ → Sent → Type 0
Goes write_error replies n s =
    HeaderFails write_error n s
    ⊎ ((s.header ≡ to_bytes 8 (to_unsigned n))
        × (ChunkFails write_error n s ⊎ WritesAll write_error replies n s))

-- The bytes on the wire are a start of the header and as many zeros as it says.
abbrev pub IsStart : ℤ → Sent → Type 0
IsStart n s =
    (rest : List ℕ) × (on_wire s ++ rest ≡ to_bytes 8 (to_unsigned n) ++ replicate (to_send n) 0)

zeros_lem : (ks : List ℕ) → zeros ks ≡ replicate (total ks) 0
zeros_lem [] = refl
zeros_lem (k ∷ ks) =
    ap (λ l. replicate k 0 ++ l) (zeros_lem ks) ∙ sym (replicate_add k (total ks) 0)

-- Chunks of at most the length, and what is left of it.
chunks-IsStart :
    (n : ℤ) (s : Sent)
    → s.header ≡ to_bytes 8 (to_unsigned n)
    → total s.written + s.part ≤ to_send n
    → IsStart n s
chunks-IsStart n s header within =
    let done = total s.written + s.part in
    let all : done + (to_send n - done) ≡ to_send n = omega arith in
    let body : zeros s.written ++ replicate s.part 0 ≡ replicate done 0 =
      ap (λ l. l ++ replicate s.part 0) (zeros_lem s.written)
      ∙ sym (replicate_add (total s.written) s.part 0) in
    (
      replicate (to_send n - done) 0,
      append_assoc s.header (zeros s.written ++ replicate s.part 0) (replicate (to_send n - done) 0)
          ∙ ap
              (λ l.
                l ++ ((zeros s.written ++ replicate s.part 0) ++ replicate (to_send n - done) 0))
              header
          ∙ ap (λ l. to_bytes 8 (to_unsigned n) ++ l)
              (ap (λ l. l ++ replicate (to_send n - done) 0) body
                ∙ sym (replicate_add done (to_send n - done) 0)
                ∙ ap (λ k. replicate k 0) all),
    )

-- The writes of the header and of the chunks.
from_header :
    (write_error : ℕ → Option (ℕ × NetError)) (n : ℕ)
    → write_error 0 ≡ none
    → ((j : ℕ) → j < n → write_error (1 + j) ≡ none)
    → (j : ℕ) → j < 1 + n
    → write_error j ≡ none
from_header write_error n q fine zero p = q
from_header write_error n q fine (suc j) p =
    let same : suc j ≡ 1 + j = omega arith in ap write_error same ∙ fine j (omega arith)

after_chunks-Goes :
    (write_error : ℕ → Option (ℕ × NetError)) (replies : List ℕ) (end : End) (n : ℤ) (c : Chunks)
    → write_error 0 ≡ none
    → ((j : ℕ) → j < length c.written → write_error (1 + j) ≡ none)
    → ((c.error ≡ none) × (c.part ≡ 0) × (total c.written ≡ to_send n))
      ⊎ IsBroken 1 (to_send n) write_error c
    → Goes write_error replies n (after_chunks (to_bytes 8 (to_unsigned n)) replies end c)
after_chunks-Goes write_error [] end n c q fine (inl (z, part, t)) = inr (
  refl,
  inr (
    from_header write_error (length c.written) q fine,
    part,
    t,
    inr (refl, short_read end [], rw z refl),
  ),
)
after_chunks-Goes write_error (b ∷ replies) end n c q fine (inl (z, part, t)) = inr (
  refl,
  inr (from_header write_error (length c.written) q fine, part, t, inl (λ e. cc, rw z refl)),
)
after_chunks-Goes write_error replies end n c q fine (inr b) = inr (
  refl,
  inl (
    b.amount,
    b.cause,
    b.failing,
    from_header write_error (length c.written) q fine,
    rw b.error refl,
    b.short,
  ),
)

-- `Send` always ends. What it put on the wire is a start of the length as a header and as many zeros as it
-- says, in chunks of 1 byte to 1 MiB but for a part of one whose write failed. If the write of the header failed,
-- there is nothing after a part of it, and `Send` returns that error; if the write of a chunk failed, that
-- was the first to fail, and `Send` returns its error; otherwise all was written, and the error is nil just
-- if a reply arrived.
pub send_lem :
    (write_error : ℕ → Option (ℕ × NetError)) (replies : List ℕ) (end : End) (n : ℤ)
    → (s : Sent) × (send write_error replies end n ≡ some s)
      × All IsChunk s.written
      × IsStart n s
      × Goes write_error replies n s
unfolding send
send_lem write_error replies end n = elim (Option-cases (write_error 0)) [
  | inr ((m, e), q) ↦
      let header = to_bytes 8 (to_unsigned n) in
      (
        record { header = take m header; written = []; part = 0; error = some e },
        rw (q, send) refl,
        tt,
        (
          drop m header ++ replicate (to_send n) 0,
          rw (append-nil (take m header)) (
              sym (append_assoc (take m header) (drop m header) (replicate (to_send n) 0))
              ∙ ap (λ l. l ++ replicate (to_send n) 0) (take-drop m header)),
        ),
        inl (m, e, q, refl, refl, refl, refl),
      )
  | inl q ↦
      let (c, r, all, fine, ended) =
        send_chunks_lem (to_send n) 1 (to_send n) write_error (omega arith) in
      let s = after_chunks (to_bytes 8 (to_unsigned n)) replies end c in
      let within : total c.written + c.part ≤ to_send n = elim ended [
        | inl (_, z, t) ↦ omega arith
        | inr b ↦ b.within
      ] in
      (
        s,
        rw (q, r, send) refl,
        all,
        chunks-IsStart n s refl within,
        after_chunks-Goes write_error replies end n c q fine ended,
      )
]
