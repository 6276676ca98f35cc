-- ===== src/Xfer/Receiving.antt =====
-- What `Serve` acknowledges of a connection on which transfers were sent one after another.
use kvflow.Prelude.{
  zero, suc, none, some, refl, inl, inr, List, ℕ, ◌≡◌, Option, length, ◌≤◌, ◌<◌, arith,
  Option-cases, ap, ◌+◌,
}
use kvflow.Int.{pos, negsuc, ℤ, wrap64}
use kvflow.Xfer.{
  take_exactly, discard, receive, Received, transfer, finished, failed, End, returned, serve_loop,
  serve, NetError, short_read, from_bytes,
}
use kvflow.Xfer.Stream.{header_error-ne-transfer, take_exactly-length}

discard-length :
    (n : ℤ) (bs : List ℕ) {rest : List ℕ} → discard n bs ≡ some rest → length rest ≤ length bs
unfolding discard
discard-length (negsuc n) bs e = ground arith
discard-length (pos n) bs {rest} e = elim (Option-cases (take_exactly n bs)) [
  | inl q ↦ cc (rw (q, discard) at e)
  | inr ((front, rest'), q) ↦
      let same : rest' ≡ rest = ground (arith, rw (q, discard) at e) in
      ground (arith, take_exactly-length n bs q, ap length same)
]

-- A transfer takes its header from the bytes, so fewer are left.
pub receive_shrinks :
    (bs : List ℕ) (end : End) {n : ℤ} {rest : List ℕ}
    → receive bs end ≡ transfer n rest
    → length rest < length bs
unfolding receive
receive_shrinks bs end {n} {rest} e = elim (Option-cases (take_exactly 8 bs)) [
  | inl q ↦ absurd (header_error-ne-transfer (short_read end bs) (rw (q, receive) at e))
  | inr ((header, body), q) ↦
      let size = wrap64 (pos (from_bytes 0 header)) in
      elim (Option-cases (discard size body)) [
        | inl z ↦ cc (rw (q, receive, z) at e)
        | inr (rest', z) ↦
            let same : rest' ≡ rest = ground (arith, rw (q, receive, z) at e) in
            omega (arith, take_exactly-length 8 bs q, discard-length size body z, ap length same)
      ]
]

module _ (reply_error : ℕ → Option NetError) (end : End) where
  serve_loop_returns :
      (fuel i : ℕ) (bs : List ℕ)
      → length bs < fuel
      → (result : Option NetError) × ((serve_loop fuel i reply_error bs end).end ≡ returned result)
  unfolding serve_loop
  serve_loop_returns zero i bs h = absurd (omega arith)
  serve_loop_returns (suc fuel) i bs h =
      go (receive bs end) refl (λ rest lt. serve_loop_returns fuel (i + 1) rest (omega arith))
    where
      go :
          (r : Received)
          → receive bs end ≡ r
          → ((rest : List ℕ)
              → length rest < length bs
              → (result : Option NetError) × ((serve_loop fuel (i + 1) reply_error rest end).end
                  ≡ returned result))
          → (result : Option NetError) × ((serve_loop (suc fuel) i reply_error bs end).end
              ≡ returned result)
      go finished q ih = (none, rw (q, serve_loop) refl)
      go (failed e) q ih = (some e, rw (q, serve_loop) refl)
      go (transfer n rest) q ih = elim (Option-cases (reply_error i)) [
        | inr (e, z) ↦ (some e, rw (q, serve_loop, z) refl)
        | inl z ↦
            let (result, w) = ih rest (receive_shrinks bs end q) in
            (result, rw (q, serve_loop, z) w)
      ]

  -- Whatever arrives, however it ends and whichever replies fail, `Serve` returns.
  pub serve_returns :
      (bs : List ℕ)
      → (result : Option NetError) × ((serve reply_error bs end).end ≡ returned result)
  unfolding serve
  serve_returns bs = serve_loop_returns (length bs + 1) 0 bs (omega arith)
