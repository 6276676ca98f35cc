-- ===== src/Xfer.antt =====
-- internal/xfer/xfer.go: the wire format of a transfer, its sender and its receiver. A connection is the
-- bytes that arrive on it, how they end, and which writes on it fail.
pub mod Header
pub mod Writes
pub mod Stream
pub mod Receiving
pub mod Answers
pub mod Session
pub mod Sending
pub mod Server
use kvflow.Prelude.{
  ℕ, zero, suc, ◌+◌, ◌-◌, ◌*◌, ◌/◌, ◌%◌, ◌^◌, Option, none, some, List, [], ◌∷◌, ◌++◌, replicate,
  take, ltb, if◌then◌else◌, length,
}
use kvflow.Int.{ℤ, pos, negsuc, wrap64}

-- io.EOF, io.ErrUnexpectedEOF, and every other error of a connection.
pub data NetError : Type 0 where
  end_of_file unexpected_eof : NetError
  broken : ℕ → NetError

-- How the bytes of a peer end: it closed the connection, or reading failed.
pub data End : Type 0 where
  closed : End
  reset : ℕ → End

-- encoding/binary: `BigEndian.PutUint64` is `to_bytes 8`, `BigEndian.Uint64` is `from_bytes 0`.
unfoldable pub to_bytes : ℕ → ℕ → List ℕ
to_bytes zero v = []
to_bytes (suc k) v = (v / 256 ^ k % 256) ∷ to_bytes k v

unfoldable pub from_bytes : ℕ → List ℕ → ℕ
from_bytes acc [] = acc
from_bytes acc (b ∷ bs) = from_bytes (acc * 256 + b) bs

-- uint64(n) of an int64.
abbrev pub to_unsigned : ℤ → ℕ
to_unsigned (pos n) = n % 2 ^ 64
to_unsigned (negsuc n) = 2 ^ 64 - 1 - n % 2 ^ 64

-- The first bytes and the rest, if there are as many.
unfoldable pub take_exactly : ℕ → List ℕ → Option (List ℕ × List ℕ)
take_exactly zero bs = some ([], bs)
take_exactly (suc n) [] = none
take_exactly (suc n) (b ∷ bs) = elim (take_exactly n bs) [
  | none ↦ none
  | some (front, rest) ↦ some (b ∷ front, rest)
]

-- The error of io.ReadFull when the bytes that are left are too few.
abbrev pub short_read : End → List ℕ → NetError
short_read (reset e) bs = broken e
short_read closed [] = end_of_file
short_read closed (b ∷ bs) = unexpected_eof

-- The error of io.CopyN: its source ended early, or failed.
abbrev pub short_copy : End → NetError
short_copy (reset e) = broken e
short_copy closed = end_of_file

-- io.CopyN(io.Discard, conn, n), which reads nothing and succeeds below 0: the bytes that are left.
unfoldable pub discard : ℤ → List ℕ → Option (List ℕ)
discard (negsuc n) bs = some bs
discard (pos n) bs = elim (take_exactly n bs) [ none ↦ none | some (front, rest) ↦ some rest ]

-- One round of `Serve` up to its reply: a transfer and the bytes after it, the sender's closing
-- between transfers, or an error.
pub data Received : Type 0 where
  transfer : ℤ → List ℕ → Received
  finished : Received
  failed : NetError → Received

-- Only io.EOF itself is `errors.Is(err, io.EOF)` here.
abbrev pub header_error : NetError → Received
header_error end_of_file = finished
header_error e = failed e

unfoldable pub receive : List ℕ → End → Received
receive bs end = elim (take_exactly 8 bs) [
  | none ↦ header_error (short_read end bs)
  | some (header, rest) ↦
      let n = wrap64 (pos (from_bytes 0 header)) in
      elim (discard n rest) [ none ↦ failed (short_copy end) | some rest' ↦ transfer n rest' ]
]

-- What `Serve` returns: nil, or an error. `out_of_fuel` is no Go value.
pub data Served : Type 0 where
  returned : Option NetError → Served
  out_of_fuel : Served

-- The sizes that were acknowledged, and how `Serve` returned.
pub record Service : Type 0 where
  pub sizes : List ℤ
  pub end : Served

abbrev pub acknowledge : ℤ → Service → Service
acknowledge n s = record s { sizes = n ∷ s.sizes }

-- The loop of `Serve` after `i` replies. `reply_error` says which reply cannot be written. Each round
-- that goes on reads a header, so as many rounds as there are bytes, and one more, are enough.
unfoldable pub serve_loop : ℕ → ℕ → (ℕ → Option NetError) → List ℕ → End → Service
serve_loop zero i reply_error bs end = record { sizes = []; end = out_of_fuel }
serve_loop (suc fuel) i reply_error bs end = elim (receive bs end) [
  | finished ↦ record { sizes = []; end = returned none }
  | failed e ↦ record { sizes = []; end = returned (some e) }
  | transfer n rest ↦ elim (reply_error i) [
    | some e ↦ record { sizes = []; end = returned (some e) }
    | none ↦ acknowledge n (serve_loop fuel (i + 1) reply_error rest end)
  ]
]

unfoldable pub serve : (ℕ → Option NetError) → List ℕ → End → Service
unfolding serve_loop
serve reply_error bs end = serve_loop (length bs + 1) 0 reply_error bs end

-- len(chunk)
abbrev pub chunk_size : ℕ
chunk_size = 1_048_576

abbrev pub smaller : ℕ → ℕ → ℕ
smaller a b = if ltb b a then b else a

-- The loop of `Send` with `left` bytes to go and `i` writes made: the sizes that it wrote, and the
-- error of the write that failed, which may have written a part of its bytes.
pub record Chunks : Type 0 where
  pub written : List ℕ
  pub part : ℕ
  pub error : Option NetError

abbrev pub wrote : ℕ → Chunks → Chunks
wrote k c = record c { written = k ∷ c.written }

-- `write_error` says which writes fail, after how many of their bytes and with which error. The fuel is
-- at least the number of bytes left, and each round writes one or more.
unfoldable pub send_chunks : ℕ → ℕ → (ℕ → Option (ℕ × NetError)) → ℕ → Option Chunks
send_chunks fuel i write_error zero = some (record { written = []; part = 0; error = none })
send_chunks zero i write_error (suc left) = none
send_chunks (suc fuel) i write_error (suc left) =
    let k = smaller (suc left) chunk_size in
    elim (write_error i) [
      | some (m, e) ↦ some (record { written = []; part = smaller m k; error = some e })
      | none ↦ elim (send_chunks fuel (i + 1) write_error (suc left - k)) [
        | none ↦ none
        | some c ↦ some (wrote k c)
      ]
    ]

-- What `Send` put on the wire: the header or a part of it, whole chunks, and a part of one; and its error.
-- `none` if its loop ran out of fuel.
pub record Sent : Type 0 where
  pub header : List ℕ
  pub written : List ℕ
  pub part : ℕ
  pub error : Option NetError

-- The reply is one byte, read from what the receiver sends back.
abbrev pub reply_error : List ℕ → End → Option NetError
reply_error [] end = some (short_read end [])
reply_error (b ∷ bs) end = none

-- `left > 0` fails at once for a size below 0.
abbrev pub to_send : ℤ → ℕ
to_send (pos n) = n
to_send (negsuc n) = 0

abbrev pub after_chunks : List ℕ → List ℕ → End → Chunks → Sent
after_chunks header replies end c = record {
  header = header;
  written = c.written;
  part = c.part;
  error = elim c.error [ some e ↦ some e | none ↦ reply_error replies end ];
}

unfoldable pub send : (ℕ → Option (ℕ × NetError)) → List ℕ → End → ℤ → Option Sent
unfolding send_chunks
send write_error replies end n =
    let header = to_bytes 8 (to_unsigned n) in
    elim (write_error 0) [
      | some (m, e) ↦
          some (record { header = take m header; written = []; part = 0; error = some e })
      | none ↦ elim (send_chunks (to_send n) 1 write_error (to_send n)) [
        | none ↦ none
        | some c ↦ some (after_chunks header replies end c)
      ]
    ]

-- The bytes of the chunks: zeros.
abbrev pub zeros : List ℕ → List ℕ
zeros [] = []
zeros (k ∷ ks) = replicate k 0 ++ zeros ks

abbrev pub on_wire : Sent → List ℕ
on_wire s = s.header ++ (zeros s.written ++ replicate s.part 0)
