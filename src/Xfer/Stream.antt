-- ===== src/Xfer/Stream.antt =====
-- What the receiver does with the bytes of one transfer.
use kvflow.Prelude.{
  [], ◌∷◌, zero, suc, none, some, refl, inl, inr, List, ℕ, length, ◌≡◌, ◌<◌, arith, length-append,
  replicate, ◌∙◌, length-replicate, ◌++◌, ◌+◌, ◌^◌, Option-cases, ap, ◌≢◌,
}
use kvflow.Xfer.{
  reset, NetError, end_of_file, unexpected_eof, broken, take_exactly, discard, receive, transfer,
  finished, closed, End, to_bytes, to_unsigned, zeros, pos, ℤ, negsuc, header_error, short_read,
  wrap64, from_bytes,
}
use kvflow.Xfer.Header.{length-to_bytes, header_lem}
use kvflow.Xfer.Writes.{total}

-- As many bytes as are there are taken, whatever follows them.
pub take_exactly-append :
    (front rest : List ℕ) → take_exactly (length front) (front ++ rest) ≡ some (front, rest)
unfolding take_exactly
take_exactly-append [] rest = refl
take_exactly-append (b ∷ front) rest = rw (take_exactly-append front rest) refl

pub take_exactly_short : (n : ℕ) (bs : List ℕ) → length bs < n → take_exactly n bs ≡ none
unfolding take_exactly
take_exactly_short zero bs h = absurd (omega arith)
take_exactly_short (suc n) [] h = refl
take_exactly_short (suc n) (b ∷ bs) h = rw (take_exactly_short n bs (omega arith)) refl

-- What is left is shorter by the bytes that were taken.
pub take_exactly-length :
    (n : ℕ) (bs : List ℕ) {front rest : List ℕ}
    → take_exactly n bs ≡ some (front, rest)
    → length bs ≡ n + length rest
unfolding take_exactly
take_exactly-length zero bs e = ground arith
take_exactly-length (suc n) [] e = ground arith
take_exactly-length (suc n) (b ∷ bs) {front} {rest} e = elim (Option-cases (take_exactly n bs)) [
  | inl q ↦ ground (arith, rw (q, take_exactly) at e)
  | inr ((front', rest'), q) ↦
      let r : rest' ≡ rest = ground (arith, rw (q, take_exactly) at e) in
      ground (arith, take_exactly-length n bs q, ap length r)
]

pub length-zeros : (ks : List ℕ) → length (zeros ks) ≡ total ks
length-zeros [] = refl
length-zeros (k ∷ ks) =
    length-append (replicate k 0) (zeros ks)
    ∙ omega (arith, length-replicate {A = ℕ} k 0, length-zeros ks)

-- A transfer that was sent whole is received whole, and nothing after it is touched.
pub receive-append :
    (n : ℕ) (body : List ℕ) (rest : List ℕ) (end : End)
    → n < 2 ^ 63
    → length body ≡ n
    → receive (to_bytes 8 (to_unsigned (pos n)) ++ (body ++ rest)) end ≡ transfer (pos n) rest
unfolding receive discard
receive-append n body rest end h t =
    let header = to_bytes 8 (to_unsigned (pos n)) in
    let front : take_exactly 8 (header ++ (body ++ rest)) ≡ some (header, body ++ rest) =
      rw (length-to_bytes 8 (to_unsigned (pos n))) at (take_exactly-append header (body ++ rest)) in
    let whole : take_exactly n (body ++ rest) ≡ some (body, rest) =
      rw t at (take_exactly-append body rest) in
    rw
      (
        front,
        receive,
        header_lem (pos n) (record { above = omega arith; below = h }),
        whole,
        discard,
      )
      (ap (λ m. transfer m rest) (header_lem (pos n) (record { above = omega arith; below = h })))

pub take_exactly_more :
    (n : ℕ) (bs more : List ℕ) {front rest : List ℕ}
    → take_exactly n bs ≡ some (front, rest)
    → take_exactly n (bs ++ more) ≡ some (front, rest ++ more)
unfolding take_exactly
take_exactly_more zero bs more e = ground arith
take_exactly_more (suc n) [] more e = ground arith
take_exactly_more (suc n) (b ∷ bs) more {front} {rest} e = elim (Option-cases (take_exactly n bs)) [
  | inl q ↦ cc (rw (q, take_exactly) at e)
  | inr ((front', rest'), q) ↦
      let f : b ∷ front' ≡ front = ground (arith, rw (q, take_exactly) at e) in
      let r : rest' ≡ rest = ground (arith, rw (q, take_exactly) at e) in
      rw (take_exactly_more n bs more q, take_exactly, f, r) refl
]

discard_more :
    (n : ℤ) (bs more : List ℕ) {rest : List ℕ}
    → discard n bs ≡ some rest
    → discard n (bs ++ more) ≡ some (rest ++ more)
unfolding discard
discard_more (negsuc n) bs more e = ground arith
discard_more (pos n) bs more {rest} e = elim (Option-cases (take_exactly n bs)) [
  | inl q ↦ cc (rw (q, discard) at e)
  | inr ((front, rest'), q) ↦
      let r : rest' ≡ rest = ground (arith, rw (q, discard) at e) in
      rw (take_exactly_more n bs more q, discard, r) refl
]

pub header_error-ne-transfer :
    (e : NetError) {n : ℤ} {rest : List ℕ} → ◌≢◌ (header_error e) (transfer n rest)
header_error-ne-transfer end_of_file q = cc
header_error-ne-transfer unexpected_eof q = cc
header_error-ne-transfer (broken x) q = cc

-- More bytes do not change a transfer that was read: they are left for later.
pub receive_more :
    (bs more : List ℕ) (end : End) {n : ℤ} {rest : List ℕ}
    → receive bs end ≡ transfer n rest
    → receive (bs ++ more) end ≡ transfer n (rest ++ more)
unfolding receive
receive_more bs more end {n} {rest} e = elim (Option-cases (take_exactly 8 bs)) [
  | inl q ↦ absurd (header_error-ne-transfer (short_read end bs) (rw (q, receive) at e))
  | inr ((header, body), q) ↦
      let size = wrap64 (pos (from_bytes 0 header)) in
      elim (Option-cases (discard size body)) [
        | inl z ↦ cc (rw (q, receive, z) at e)
        | inr (rest', z) ↦
            let same : transfer size rest' ≡ transfer n rest = rw (q, receive, z) at e in
            rw (take_exactly_more 8 bs more q, receive, discard_more size body more z) (cc same)
      ]
]

header_error-ne-finished :
    (first : ℕ) (bs : List ℕ) (end : End) → header_error (short_read end (first ∷ bs)) ≢ finished
header_error-ne-finished first bs closed e = cc
header_error-ne-finished first bs (reset x) e = cc

-- With a byte there, an early end is an error.
pub receive-ne-finished :
    (first : ℕ) (bs : List ℕ) (end : End) → receive (first ∷ bs) end ≢ finished
unfolding receive
receive-ne-finished first bs end e = elim (Option-cases (take_exactly 8 (first ∷ bs))) [
  | inl q ↦ header_error-ne-finished first bs end (rw (q, receive) at e)
  | inr ((header, body), q) ↦
      elim (Option-cases (discard (wrap64 (pos (from_bytes 0 header))) body)) [
        | inl z ↦ cc (rw (q, receive, z) at e)
        | inr (rest', z) ↦ cc (rw (q, receive, z) at e)
      ]
]
