-- ===== src/XferRuns.antt =====
-- Transfers of a few bytes over the wire.
use mathlib.Core.List.{Perm}
use kvflow.Xfer.Server.{Peer, Event, accept, accept_error, go_on, serve_all, run_one, step, round}
use kvflow.Xfer.Server.Rounds.{IsServed}
use kvflow.Xfer.Server.Serving.{peers, failures, serve_all-serve}
use kvflow.Prelude.{
  map, [], ◌∷◌, none, some, refl, ℕ, List, arith, ◌≡◌, ◌++◌, Option, ◌^◌, if◌then◌else◌, All, ◌-◌,
  ◌==◌,
}
use kvflow.Int.{pos, wrap64, negsuc}
use kvflow.Xfer.{
  Sent, NetError, returned, closed, reset, to_bytes, from_bytes, take_exactly, discard, receive,
  serve_loop, serve, send, send_chunks, broken,
}
use kvflow.Xfer.Writes.{IsChunk}
use kvflow.Xfer.Sending.{IsStart, Goes, send_lem}
use kvflow.Xfer.Answers.{IsSent, Answers, stream, no_failure}
use kvflow.Xfer.Session.{serve-sent, serve_cut}

abbrev length_header : ℕ → List ℕ
length_header n = 0 ∷ 0 ∷ 0 ∷ 0 ∷ 0 ∷ 0 ∷ 0 ∷ n ∷ []

abbrev small : ℕ → Sent
small n = record { header = length_header n; written = n ∷ []; part = 0; error = none }

-- The receiver's reply.
abbrev one_reply : List ℕ
one_reply = 1 ∷ []

small-IsSent : IsSent 3 (small 3)
unfolding send send_chunks to_bytes
small-IsSent = record {
  size_fits = omega arith;
  write_error = λ i. none;
  replies = one_reply;
  end = closed;
  sent = refl;
  no_error = refl;
}

tiny-IsSent : IsSent 1 (small 1)
unfolding send send_chunks to_bytes
tiny-IsSent = record {
  size_fits = omega arith;
  write_error = λ i. none;
  replies = one_reply;
  end = closed;
  sent = refl;
  no_error = refl;
}

abbrev two_sends : List (ℕ × Sent)
two_sends = (3, small 3) ∷ (1, small 1) ∷ []

serve-sent_example :
    serve no_failure (stream two_sends) closed
    ≡ record { sizes = pos 3 ∷ pos 1 ∷ []; end = returned none }
serve-sent_example = serve-sent two_sends (small-IsSent, (tiny-IsSent, tt))

-- The third transfer lacks its last byte when the connection is reset, and the second reply fails.
abbrev second_lost : ℕ → Option NetError
second_lost i = if i == 1 then some (broken 5) else none

serve_cut_example :
    (e : NetError) × Answers second_lost 0
      (pos 3 ∷ pos 1 ∷ [])
      (some e)
      (serve second_lost (stream two_sends ++ (length_header 3 ++ (7 ∷ 8 ∷ []))) (reset 4))
unfolding to_bytes
serve_cut_example =
    serve_cut second_lost two_sends 3 0 (0 ∷ 0 ∷ 0 ∷ 0 ∷ 0 ∷ 0 ∷ 3 ∷ 7 ∷ 8 ∷ []) (reset 4)
      (small-IsSent, (tiny-IsSent, tt)) (omega arith) (7 ∷ 8 ∷ 9 ∷ [], 9, [], refl, refl)

-- The third write of a transfer of more than a chunk fails after two bytes.
abbrev third_fails : ℕ → Option (ℕ × NetError)
third_fails i = if i == 2 then some (2, broken 7) else none

-- A length below 0 is acknowledged without reading a byte of it.
negative_acknowledged :
    serve no_failure (to_bytes 8 (2 ^ 64 - 5)) closed
    ≡ record { sizes = negsuc 4 ∷ []; end = returned none }
unfolding serve serve_loop receive take_exactly discard to_bytes from_bytes wrap64
negative_acknowledged = refl

send_lem_example :
    (s : Sent) × (send third_fails one_reply closed (pos 1_048_579) ≡ some s)
    × All IsChunk s.written
    × IsStart (pos 1_048_579) s
    × Goes third_fails one_reply (pos 1_048_579) s
send_lem_example = send_lem third_fails one_reply closed (pos 1_048_579)

abbrev fine_peer : Peer
fine_peer = record {
  addr = "10.0.0.1:41000";
  bytes = stream two_sends;
  end = closed;
  reply_error = no_failure;
}

-- Its connection is reset within a header.
abbrev broken_peer : Peer
broken_peer = record {
  addr = "10.0.0.2:41000";
  bytes = 0 ∷ [];
  end = reset 4;
  reply_error = no_failure;
}

abbrev visits : List Event
visits =
    accept fine_peer
    ∷ go_on 0
    ∷ accept broken_peer
    ∷ go_on 1
    ∷ go_on 0
    ∷ accept_error (broken 9)
    ∷ go_on 0
    ∷ []

serve_all-serve_example :
    let s = serve_all visits in
    (peers s ≡ fine_peer ∷ broken_peer ∷ [])
    × (s.returned ≡ some (broken 9))
    × All (λ g. IsServed g g.result) s.goroutines
    × Perm (failures s.goroutines) s.logged
serve_all-serve_example = serve_all-serve visits

-- The reset connection is logged, and the other one is served to its end.
visits_logged : (serve_all visits).logged ≡ ("10.0.0.2:41000", broken 4) ∷ []
unfolding serve_all run_one step round receive take_exactly discard from_bytes wrap64
visits_logged = refl

visits_served :
    map (λ g. g.result) (serve_all visits).goroutines ≡ some none ∷ some (some (broken 4)) ∷ []
unfolding serve_all run_one step round receive take_exactly discard from_bytes wrap64
visits_served = refl
