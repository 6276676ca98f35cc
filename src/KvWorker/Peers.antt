-- ===== src/KvWorker/Peers.antt =====
-- The allowlist that a `-peers` flag stands for.
use Prim.Native.String.{String, ◌++◌ as str_append}
use Prim.Native.String.append
use Prim.Native.Char.{Char, code}
use Prim.Native.String.compare
use text.Mathlib.Text.{is_eq, ◌==◌ as str_eq}
use kvflow.Prelude.{
  ◌≡◌, ◌≢◌, ◌↔◌, refl, ap, ◌∙◌, Bool, true, false, List, [], ◌∷◌, ◌==◌, All, Bool-cases, inl, inr,
}
use kvflow.XferCsv.{join}
use kvflow.Controller.{permission_denied}
use kvflow.Worker.{
  Answer, answered, TransferRequest, Call, refused, transfer, new_worker, member, is_malformed,
}
use kvflow.Worker.Codes.{IsAccepted, transfer_codes}
use kvflow.KvWorker.{Flags, serving, split, peers_of, main}

-- A text without a comma.
abbrev pub IsPlain : String → Type 0
IsPlain String.[] = Unit
IsPlain (String.◌∷◌ c s) = ((code c == b',') ≡ false) × IsPlain s

split_plain : (s : String) → IsPlain s → split s ≡ s ∷ []
unfolding split
split_plain String.[] h = refl
split_plain (String.◌∷◌ c s) (h, hs) = rw (h, split_plain s hs) refl

comma : (rest : String) → str_append "," rest ≡ String.◌∷◌ "," rest
comma rest = append.cons "," "" rest ∙ ap (λ u. String.◌∷◌ "," u) (append.nil rest)

split_cut :
    (s rest : String) → IsPlain s → split (str_append s (str_append "," rest)) ≡ s ∷ split rest
unfolding split
split_cut String.[] rest h = rw (append.nil (str_append "," rest), comma rest) refl
split_cut (String.◌∷◌ c s) rest (h, hs) =
    let moved = append.cons c s (str_append "," rest) in
    ap split moved ∙ rw (h, split_cut s rest hs) refl

split-join :
    (a : String) (more : List String) → All IsPlain (a ∷ more) → split (join (a ∷ more)) ≡ a ∷ more
unfolding join
split-join a [] (h, _) = split_plain a h
split-join a (b ∷ more) (h, hs) =
    split_cut a (join (b ∷ more)) h ∙ ap (λ pieces. a ∷ pieces) (split-join b more hs)

not_empty : (c : Char) (s : String) → str_eq (String.◌∷◌ c s) "" ≡ false
not_empty c s = ap is_eq (compare.cons-nil c s)

join-not_empty :
    (a : String) (more : List String) → a ∷ more ≢ "" ∷ [] → str_eq (join (a ∷ more)) "" ≡ false
unfolding join
join-not_empty String.[] [] h = absurd (h refl)
join-not_empty (String.◌∷◌ c s) [] h = not_empty c s
join-not_empty String.[] (b ∷ more) h =
    ap (λ t. str_eq t "") (append.nil (str_append "," (join (b ∷ more))) ∙ comma (join (b ∷ more)))
    ∙ not_empty "," (join (b ∷ more))
join-not_empty (String.◌∷◌ c s) (b ∷ more) h =
    ap (λ t. str_eq t "") (append.cons c s (str_append "," (join (b ∷ more))))
    ∙ not_empty c (str_append s (str_append "," (join (b ∷ more))))

-- The peers of the flag that joins some addresses are those addresses.
peers_of-join :
    (addrs : List String) → All IsPlain addrs → addrs ≢ "" ∷ [] → peers_of (join addrs) ≡ addrs
unfolding peers_of join
peers_of-join [] h n = refl
peers_of-join (a ∷ more) h n = rw (peers_of, join-not_empty a more n) (split-join a more h)

join-empty :
    (addrs : List String) → addrs ≢ "" ∷ [] → (str_eq (join addrs) "" ≡ true) ↔ (addrs ≡ [])
unfolding join
join-empty [] n = (λ e. refl, λ e. refl)
join-empty (a ∷ more) n = (λ e. let no_ = join-not_empty a more n in cc, λ e. cc)

accepted-permitted : {F : Type 0} (a : Answer F) → IsAccepted a → a ≢ refused permission_denied
accepted-permitted (answered t) h e = cc
accepted-permitted (refused code) h e =
    let same : code ≡ permission_denied = cc in cc (rw same at h)

denied_iff :
    {F : Type 0} (addrs : List String) (r : TransferRequest) (call : Call F)
    → is_malformed r ≡ false
    → ((transfer (new_worker addrs) r call).answer ≡ refused permission_denied)
      ↔ (member r.peer_addr addrs ≡ false)
denied_iff addrs r call m =
    let (_, denied, accepted) = transfer_codes (new_worker addrs) r call in
    (
      λ e. elim (Bool-cases (member r.peer_addr addrs)) [
        | inl inside ↦
            absurd
              (accepted-permitted (transfer (new_worker addrs) r call).answer (accepted m inside) e)
        | inr outside ↦ outside
      ],
      λ outside. (denied m outside).0,
    )

-- Where kvworker can listen on both of its addresses, and -peers joins addresses without a comma by commas,
-- which are not the one empty text: it serves with a new worker whose allowlist is just those addresses, in
-- order, and warns just if there are none. That worker answers PermissionDenied to a call with bytes and a
-- peer just if the peer is not among them.
pub main-allows :
    {F : Type 0} (listens : String → Bool) (flags : Flags) (addrs : List String)
    → flags.peers ≡ join addrs
    → All IsPlain addrs
    → addrs ≢ "" ∷ []
    → listens flags.data_addr ≡ true
    → listens flags.grpc_addr ≡ true
    → let m = main listens flags in
      (m.started ≡ serving (new_worker addrs))
      × ((m.warned ≡ true) ↔ (addrs ≡ []))
      × ((r : TransferRequest) (call : Call F)
          → is_malformed r ≡ false
          → ((transfer (new_worker addrs) r call).answer ≡ refused permission_denied)
            ↔ (member r.peer_addr addrs ≡ false))
unfolding main
main-allows listens flags addrs text plain some_ on_data on_grpc = (
  rw (on_data, on_grpc, text, peers_of-join addrs plain some_) refl,
  rw text (join-empty addrs some_),
  denied_iff addrs,
)
