-- ===== src/WorkerRuns.antt =====
-- Calls of a worker, and a controller against it.
use Prim.Native.String.{String}
use kvflow.XferCsv.{join}
use kvflow.KvWorker.{Flags, main, serving}
use kvflow.KvWorker.Peers.{IsPlain, main-allows}
use kvflow.Int.{ℤ, pos}
use kvflow.Prelude.{
  List, All, ◌↔◌, arith, [], ◌∷◌, none, some, refl, true, false, ℕ, ◌≡◌, Bool, ◌==◌, if◌then◌else◌,
}
use kvflow.Whole.{whole}
use kvflow.LiveRuns.{live, settings, hopeful, requests, result}
use kvflow.Scheduler.{transfer as move}
use kvflow.Learner.LastSample.{last_sample}
use kvflow.Controller.{
  CallError, Env, run, cut, call, started, canceled, invalid_argument, permission_denied,
}
use kvflow.Worker.{
  WorkerState, TransferRequest, Call, Conn, refused, member, find, remove, new_worker, send_on,
  transfer_locked, transfer, close, gave_up, is_malformed,
}
use kvflow.Worker.Codes.{IsAccepted, transfer_codes}
use kvflow.Worker.Accounts.{IsSound, IsSend}
use kvflow.Worker.Reached.{Reached, made, served, shut, Reached-IsSound, transfer-IsSend}
use kvflow.Worker.Control.{IsServed, reply_of, run_served}

abbrev idle_worker : WorkerState
idle_worker = new_worker ("10.0.0.5:9000" ∷ [])

abbrev good_call : Call ℤ
good_call = record {
  ended_waiting = none;
  dials = true;
  ended_dialing = none;
  sent = some (pos 3);
  stopped = true;
  ended_sending = none;
}

-- The peer stops reading, and the context ends.
abbrev cut_call : Call ℤ
cut_call = record good_call { sent = none; stopped = false; ended_sending = some gave_up }

abbrev request : TransferRequest
request = record { peer_addr = "10.0.0.5:9000"; bytes = pos 2 }

abbrev first_conn : Conn
first_conn = record { peer = "10.0.0.5:9000"; number = 0 }

abbrev warm_worker : WorkerState
warm_worker = record idle_worker { conns = ("10.0.0.5:9000", first_conn) ∷ []; dialed = 1 }

worker_calls : Unit {0}
unfolding transfer transfer_locked send_on find remove member close
worker_calls = tt

warm-Reached : Reached ℤ warm_worker
unfolding worker_calls
warm-Reached = served request good_call (made ("10.0.0.5:9000" ∷ [])) refl

Reached-IsSound_example : IsSound (close (transfer warm_worker request cut_call).worker)
Reached-IsSound_example =
    Reached-IsSound (close (transfer warm_worker request cut_call).worker)
      (shut (served request cut_call warm-Reached refl) refl)

transfer-IsSend_example :
    IsSend warm_worker "10.0.0.5:9000" cut_call first_conn
      (transfer warm_worker request cut_call).worker
unfolding worker_calls
transfer-IsSend_example = transfer-IsSend warm_worker request cut_call first_conn warm-Reached refl

transfer_codes_example :
    let t =
      transfer idle_worker (record { peer_addr = "10.0.0.6:9000"; bytes = pos 2 }) good_call in
    let r : TransferRequest = record { peer_addr = "10.0.0.6:9000"; bytes = pos 2 } in
    (is_malformed r ≡ true
      → (t.answer ≡ refused invalid_argument) × (t.used ≡ none) × (t.worker ≡ idle_worker))
    × (is_malformed r ≡ false
        → member r.peer_addr idle_worker.allowed ≡ false
        → (t.answer ≡ refused permission_denied) × (t.used ≡ none) × (t.worker ≡ idle_worker))
    × (is_malformed r ≡ false → member r.peer_addr idle_worker.allowed ≡ true → IsAccepted t.answer)
transfer_codes_example =
    transfer_codes idle_worker (record { peer_addr = "10.0.0.6:9000"; bytes = pos 2 }) good_call

-- The second call finds that its caller gave up.
abbrev nth_call : ℕ → Call ℤ
nth_call i = if i == 1 then record good_call { ended_waiting = some gave_up } else good_call

abbrev ended_at_one : ℕ → Bool
ended_at_one i = i == 1

abbrev served_env : Env ℤ
served_env = record {
  wait_until = λ i t. started t;
  transfer_call = λ i peer bytes timeout.
      reply_of "canceled" (ended_at_one i)
        (transfer idle_worker (record { peer_addr = peer; bytes = bytes }) (nth_call i)).answer;
}

served_env-IsServed : IsServed served_env settings ended_at_one
unfolding worker_calls
served_env-IsServed = record {
  worker = λ i. idle_worker;
  call = nth_call;
  text = λ i. "canceled";
  calls_worker = λ i bytes. refl;
  has_peer = refl;
  peer_allowed = λ i. refl;
}

abbrev canceled_call : CallError
canceled_call = record { code = canceled; text = "canceled" }

canceled_run :
    run last_sample served_env settings hopeful requests
    ≡ (result 0 move 3 none ∷ [], some (cut (call canceled_call)))
unfolding live worker_calls
canceled_run = refl

run_served_example : ended_at_one 1 ≡ true
run_served_example =
    run_served last_sample served_env settings ended_at_one served_env-IsServed hopeful requests
      (result 0 move 3 none ∷ []) canceled_call canceled_run

abbrev two_peers : List String
two_peers = "10.0.0.5:9000" ∷ "10.0.0.6:9000" ∷ []

abbrev worker_flags : Flags
worker_flags = record {
  grpc_addr = "127.0.0.1:50051";
  data_addr = "127.0.0.1:9000";
  peers = "10.0.0.5:9000,10.0.0.6:9000";
}

two_peers-IsPlain : All IsPlain two_peers
two_peers-IsPlain = ground arith

main-allows_example :
    let m = main (λ addr. true) worker_flags in
    (m.started ≡ serving (new_worker two_peers))
    × ((m.warned ≡ true) ↔ (two_peers ≡ []))
    × ((r : TransferRequest) (call : Call ℤ)
        → is_malformed r ≡ false
        → ((transfer (new_worker two_peers) r call).answer ≡ refused permission_denied)
          ↔ (member r.peer_addr two_peers ≡ false))
unfolding join
main-allows_example =
    main-allows (λ addr. true) worker_flags two_peers refl two_peers-IsPlain (λ e. cc) refl refl
