-- ===== src/KvWorker.antt =====
-- cmd/kvworker/main.go: `main` after the flags are parsed, and `newServer`. The sockets and gRPC's serving
-- are outside.
pub mod Peers
use Prim.Native.String.{String}
use Prim.Native.Char.{Char, code}
use text.Mathlib.Text.{◌==◌ as str_eq}
use kvflow.Prelude.{Bool, true, false, List, [], ◌∷◌, ◌==◌, if◌then◌else◌}
use kvflow.Worker.{WorkerState, new_worker}

pub record Flags : Type 0 where
  pub grpc_addr : String
  pub data_addr : String
  pub peers : String

-- How `main` goes on: it cannot listen on one of its addresses, or it serves peers on the data address and
-- the controller's calls with a new worker. Before the latter it may warn that no peers are given.
pub data Started : Type 0 where
  no_listener : String → Started
  serving : WorkerState → Started

pub record Main : Type 0 where
  pub warned : Bool
  pub started : Started

-- A character before the first of the pieces, of which there is always one.
abbrev pub push : Char → List String → List String
push c [] = (String.◌∷◌ c String.[]) ∷ []
push c (s ∷ more) = (String.◌∷◌ c s) ∷ more

-- strings.Split(s, ",")
unfoldable pub split : String → List String
split String.[] = "" ∷ []
split (String.◌∷◌ c s) =
    let pieces = split s in if code c == b',' then "" ∷ pieces else push c pieces

-- The peers of the flag.
unfoldable pub peers_of : String → List String
peers_of text = if str_eq text "" then [] else split text

-- The worker of `newServer`, which gRPC serves.
abbrev pub new_server : List String → WorkerState
new_server peers = new_worker peers

-- `listens` says on which addresses the process can listen.
unfoldable pub main : (String → Bool) → Flags → Main
main listens flags = record {
  warned = str_eq flags.peers "";
  started =
      if listens flags.data_addr
      then if listens flags.grpc_addr
        then serving (new_server (peers_of flags.peers))
        else no_listener flags.grpc_addr
      else no_listener flags.data_addr;
}
