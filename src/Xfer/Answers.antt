-- ===== src/Xfer/Answers.antt =====
-- What `Serve` answers to transfers that `Send` sent one after another on a connection.
use mathlib.Core.Path.{subst}
use mathlib.Core.Option.{some-injective}
use mathlib.Core.List.{append_assoc, append-nil}
use kvflow.Prelude.{
  [], ◌∷◌, zero, suc, none, some, refl, inl, inr, ℕ, List, ◌<◌, ◌≡◌, Option-cases, length, Option,
  ◌⊎◌, ◌^◌, take, ◌++◌, ◌+◌, length-append, ◌∙◌, arith, ap, ◌≤◌, sym,
}
use kvflow.Int.{pos, ℤ}
use kvflow.Xfer.{
  receive, transfer, finished, failed, End, to_bytes, to_unsigned, zeros, Sent, on_wire, send,
  returned, acknowledge, Service, serve_loop, serve, NetError,
}
use kvflow.Xfer.Header.{length-to_bytes}
use kvflow.Xfer.Writes.{total}
use kvflow.Xfer.Sending.{Goes, send_lem}
use kvflow.Xfer.Stream.{receive-append, length-zeros}

-- `Send` sent `n` bytes and returned no error.
pub record IsSent (n : ℕ) (s : Sent) : Type 0 where
  pub size_fits : n < 2 ^ 63
  pub write_error : ℕ → Option (ℕ × NetError)
  pub replies : List ℕ
  pub end : End
  pub sent : send write_error replies end (pos n) ≡ some s
  pub no_error : s.error ≡ none

-- A header and as many zeros as it says.
abbrev pub IsWhole : ℕ → Sent → Type 0
IsWhole n s = (s.header ≡ to_bytes 8 (to_unsigned (pos n))) × (s.part ≡ 0) × (total s.written ≡ n)

IsSent-IsWhole : (n : ℕ) (s : Sent) → IsSent n s → IsWhole n s
IsSent-IsWhole n s h =
    let (s', e, _, _, way) = send_lem h.write_error h.replies h.end (pos n) in
    let same : s' ≡ s = some-injective _ _ (sym e ∙ h.sent) in
    subst (IsWhole n) same (worked-IsWhole s' (rw (← same) at h.no_error) way)
  where
    worked-IsWhole :
        (s' : Sent) → s'.error ≡ none → Goes h.write_error h.replies (pos n) s' → IsWhole n s'
    worked-IsWhole s' fine (inl (m, e, _, _, _, _, bad)) = cc
    worked-IsWhole s' fine (inr (whole, inl (m, e, _, _, bad, _))) = cc
    worked-IsWhole s' fine (inr (whole, inr (_, z, t, _))) = (whole, z, t)

-- Each transfer of a session: the size, and what was sent.
abbrev pub AllSent : List (ℕ × Sent) → Type 0
AllSent [] = Unit
AllSent ((n, s) ∷ rest) = IsSent n s × AllSent rest

abbrev pub stream : List (ℕ × Sent) → List ℕ
stream [] = []
stream ((n, s) ∷ rest) = on_wire s ++ stream rest

abbrev pub sizes_of : List (ℕ × Sent) → List ℤ
sizes_of [] = []
sizes_of ((n, s) ∷ rest) = pos n ∷ sizes_of rest

on_wire-IsWhole :
    (n : ℕ) (s : Sent)
    → IsWhole n s
    → on_wire s ≡ to_bytes 8 (to_unsigned (pos n)) ++ zeros s.written
on_wire-IsWhole n s (header, part, t) =
    rw (header, part)
      (ap (λ l. to_bytes 8 (to_unsigned (pos n)) ++ l) (append-nil (zeros s.written)))

receive_sent :
    (n : ℕ) (s : Sent) (rest : List ℕ) (end : End)
    → IsSent n s
    → receive (on_wire s ++ rest) end ≡ transfer (pos n) rest
receive_sent n s rest end h =
    let whole = IsSent-IsWhole n s h in
    let (_, _, t) = whole in
    rw (on_wire-IsWhole n s whole, append_assoc)
      (receive-append n (zeros s.written) rest end h.size_fits (length-zeros s.written ∙ t))

length-on_wire : (n : ℕ) (s : Sent) → IsSent n s → length (on_wire s) ≡ 8 + n
length-on_wire n s h =
    let whole = IsSent-IsWhole n s h in
    let (_, _, t) = whole in
    ap length (on_wire-IsWhole n s whole)
    ∙ length-append (to_bytes 8 (to_unsigned (pos n))) (zeros s.written)
    ∙ omega (arith, length-to_bytes 8 (to_unsigned (pos n)), length-zeros s.written, t)

-- Every write succeeds.
abbrev pub no_failure : ℕ → Option NetError
no_failure i = none

-- What `Serve` returns on bytes that hold no whole transfer.
abbrev pub Stops : List ℕ → End → Option NetError → Type 0
Stops cut end none = receive cut end ≡ finished
Stops cut end (some e) = receive cut end ≡ failed e

-- Where all replies from index `i` to transfers of these sizes can be written, all are acknowledged, and the
-- result is the given one; otherwise those before the first reply that fails are, and its error is returned.
abbrev pub Answers : (ℕ → Option NetError) → ℕ → List ℤ → Option NetError → Service → Type 0
Answers reply_error i sizes result x =
    (((j : ℕ) → j < length sizes → reply_error (i + j) ≡ none)
      × (x ≡ record { sizes = sizes; end = returned result }))
    ⊎ ((j : ℕ) × (e : NetError) × (j < length sizes)
        × ((k : ℕ) → k < j → reply_error (i + k) ≡ none)
        × (reply_error (i + j) ≡ some e)
        × (x ≡ record { sizes = take j sizes; end = returned (some e) }))

-- A property of the indices from `i`, from that of `i` and of those from the next one.
from_next :
    (reply_error : ℕ → Option NetError) (i n : ℕ)
    → reply_error i ≡ none
    → ((j : ℕ) → j < n → reply_error (i + 1 + j) ≡ none)
    → (j : ℕ) → j < suc n
    → reply_error (i + j) ≡ none
from_next reply_error i n q fine zero p =
    let same : i + 0 ≡ i = omega arith in ap reply_error same ∙ q
from_next reply_error i n q fine (suc j) p =
    let same : i + suc j ≡ i + 1 + j = omega arith in ap reply_error same ∙ fine j (omega arith)

Answers-cons :
    (reply_error : ℕ → Option NetError) (i : ℕ) (n : ℤ) (sizes : List ℤ) (result : Option NetError)
    (x : Service)
    → reply_error i ≡ none
    → Answers reply_error (i + 1) sizes result x
    → Answers reply_error i (n ∷ sizes) result (acknowledge n x)
Answers-cons reply_error i n sizes result x q (inl (fine, e)) =
    inl (from_next reply_error i (length sizes) q fine, ap (acknowledge n) e)
Answers-cons reply_error i n sizes result x q (inr (j, f, p, fine, bad, e)) = inr (
  suc j,
  f,
  omega arith,
  from_next reply_error i j q fine,
  (let same : i + suc j ≡ i + 1 + j = omega arith in ap reply_error same ∙ bad),
  ap (acknowledge n) e,
)

serve_loop-Stops :
    (fuel i : ℕ) (reply_error : ℕ → Option NetError) (cut : List ℕ) (end : End)
    (result : Option NetError)
    → Stops cut end result
    → serve_loop (suc fuel) i reply_error cut end ≡ record { sizes = []; end = returned result }
unfolding serve_loop
serve_loop-Stops fuel i reply_error cut end none h = rw (h, serve_loop) refl
serve_loop-Stops fuel i reply_error cut end (some e) h = rw (h, serve_loop) refl

serve_loop-Answers :
    (fuel i : ℕ) (reply_error : ℕ → Option NetError) (sends : List (ℕ × Sent)) (cut : List ℕ)
    (end : End) (result : Option NetError)
    → length sends < fuel
    → AllSent sends
    → Stops cut end result
    → Answers reply_error i
        (sizes_of sends)
        result
        (serve_loop fuel i reply_error (stream sends ++ cut) end)
unfolding serve_loop
serve_loop-Answers zero i reply_error sends cut end result h all stops = absurd (omega arith)
serve_loop-Answers (suc fuel) i reply_error [] cut end result h all stops =
    inl (λ j p. absurd (omega arith), serve_loop-Stops fuel i reply_error cut end result stops)
serve_loop-Answers (suc fuel) i reply_error ((n, s) ∷ sends) cut end result h (hs, all) stops =
    let arrived = receive_sent n s (stream sends ++ cut) end hs in
    elim (Option-cases (reply_error i)) [
      | inr (e, q) ↦ inr (
        0,
        e,
        omega arith,
        λ k p. absurd (omega arith),
        (let same : i + 0 ≡ i = omega arith in ap reply_error same ∙ q),
        rw (append_assoc, arrived, serve_loop, q) refl,
      )
      | inl q ↦
          let later =
            serve_loop-Answers fuel (i + 1) reply_error sends cut end result (omega arith) all
              stops in
          rw (append_assoc, arrived, serve_loop, q)
            (Answers-cons reply_error i (pos n) (sizes_of sends) result _ q later)
    ]

length-stream : (sends : List (ℕ × Sent)) → AllSent sends → length sends ≤ length (stream sends)
length-stream [] all = omega arith
length-stream ((n, s) ∷ sends) (hs, all) = omega (
  arith,
  length-append (on_wire s) (stream sends),
  length-on_wire n s hs,
  length-stream sends all,
)

pub serve-Answers :
    (reply_error : ℕ → Option NetError) (sends : List (ℕ × Sent)) (cut : List ℕ) (end : End)
    (result : Option NetError)
    → AllSent sends
    → Stops cut end result
    → Answers reply_error 0 (sizes_of sends) result (serve reply_error (stream sends ++ cut) end)
unfolding serve
serve-Answers reply_error sends cut end result all stops =
    serve_loop-Answers _ 0 reply_error sends cut end result
      (omega (arith, length-append (stream sends) cut, length-stream sends all)) all stops
