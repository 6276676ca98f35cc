-- ===== src/Xfer/Session.antt =====
-- Transfers that `Send` sent one after another on a connection, as `Serve` reads them.
use mathlib.Core.List.{append-nil}
use kvflow.Prelude.{
  [], ◌∷◌, none, some, refl, inl, inr, ℕ, List, ◌<◌, ◌≡◌, length, Option, ◌^◌, ◌++◌, length-append,
  ◌∙◌, arith, ap, sym,
}
use kvflow.Int.{pos}
use kvflow.Xfer.{
  take_exactly, receive, Received, transfer, finished, failed, closed, End, to_bytes, to_unsigned,
  Sent, returned, serve, NetError,
}
use kvflow.Xfer.Stream.{receive-append, receive-ne-finished, receive_more}
use kvflow.Xfer.Answers.{AllSent, stream, sizes_of, no_failure, Answers, serve-Answers}

-- When each of several `Send`s on a connection returned without an error and the sender then closed
-- it, `Serve` acknowledges just those transfers, with their sizes and in their order, and returns nil.
pub serve-sent :
    (sends : List (ℕ × Sent))
    → AllSent sends
    → serve no_failure (stream sends) closed
      ≡ record { sizes = sizes_of sends; end = returned none }
unfolding receive take_exactly
serve-sent sends all =
    elim (rw append-nil at (serve-Answers no_failure sends [] closed none all refl)) [
      | inl (_, e) ↦ e
      | inr (j, x, _, _, bad, _) ↦ cc
    ]

-- A proper start of a transfer of `n` bytes: of its header and its body.
abbrev pub IsCut : ℕ → ℕ → List ℕ → Type 0
IsCut n first cut =
    (body : List ℕ) × (x : ℕ) × (back : List ℕ) × (length body ≡ n)
    × (to_bytes 8 (to_unsigned (pos n)) ++ body ≡ (first ∷ cut) ++ (x ∷ back))

-- `receive` reads the header of a whole transfer and then wants all of it.
cut-Stops :
    (n first : ℕ) (cut : List ℕ) (end : End)
    → n < 2 ^ 63
    → IsCut n first cut
    → (e : NetError) × (receive (first ∷ cut) end ≡ failed e)
cut-Stops n first cut end small (body, x, back, size, w) = go (receive (first ∷ cut) end) refl
  where
    go :
        (r : Received)
        → receive (first ∷ cut) end ≡ r
        → (e : NetError) × (receive (first ∷ cut) end ≡ failed e)
    go (failed e) q = (e, q)
    go finished q = absurd (receive-ne-finished first cut end q)
    go (transfer m rest) q =
        let longer = receive_more (first ∷ cut) (x ∷ back) end q in
        let whole = rw append-nil at (receive-append n body [] end small size) in
        let same : transfer m (rest ++ (x ∷ back)) ≡ transfer (pos n) [] =
          sym longer ∙ ap (λ bs. receive bs end) (sym w) ∙ whole in
        let none_left : rest ++ (x ∷ back) ≡ [] = ground arith in
        ground (arith, length-append rest (x ∷ back), ap length none_left)

-- When the connection ends within a transfer, closed or by another error of reading, after several whole
-- `Send`s: where `Serve` can write its replies to those, it acknowledges just those transfers, in order, and
-- returns an error. Otherwise it acknowledges those before the first reply that fails, and returns the error
-- of that reply. Either way it does not acknowledge the transfer that was cut.
pub serve_cut :
    (reply_error : ℕ → Option NetError) (sends : List (ℕ × Sent)) (n first : ℕ) (cut : List ℕ)
    (end : End)
    → AllSent sends
    → n < 2 ^ 63
    → IsCut n first cut
    → (e : NetError) × Answers reply_error 0
        (sizes_of sends)
        (some e)
        (serve reply_error (stream sends ++ (first ∷ cut)) end)
serve_cut reply_error sends n first cut end all small c =
    let (e, stops) = cut-Stops n first cut end small c in
    (e, serve-Answers reply_error sends (first ∷ cut) end (some e) all stops)
