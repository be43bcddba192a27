-- ===== src/Policy/Examples.antt =====
-- The default policy against an operator, a teammate and a peer.
use vvagent.Base.{ℕ, ◌≡◌, ◌≢◌, refl, ◌↔◌, inr, true, false, [], ◌∷◌, none, some, arith}
use vvagent.Identity.Opaque.{Opaque}
use vvagent.Message.PrincipalKind.{PrincipalKind, is_peer, is_local_user, agent, peer}
use vvagent.Policy.Defs.{
  Gate, Request, replies_only, replies_and_team, replies_and_trusted, default, evaluate,
  evaluate_admit, evaluate_local,
}
use vvagent.Policy.Laws.{
  Governs, PeerAdmitted, LocalAdmitted, evaluate-peer_iff, evaluate_local_iff,
}
use vvagent.Policy.Bounds.{evaluate_admit_mono}

abbrev id : ℕ → Opaque
id n = record { chars = n ∷ [] }

abbrev request_from : PrincipalKind → Request
request_from kind = record {
  sender = record { kind = kind; endpoint_id = some (id b'1'); incarnation_id = none };
  sender_scope = some (id b'9');
  target_scope = id b'9';
  is_reply_to_our_request = true;
  sender_address = none;
  target_address = none;
  peer_trusted = false;
}

default-activate : Governs default Gate.activate replies_and_team
unfolding default
default-activate = inr (inr (refl, refl))

evaluate-peer_iff_example :
    ((evaluate default Gate.activate (request_from peer)).allowed ≡ true)
    ↔ PeerAdmitted default replies_and_team (request_from peer)
evaluate-peer_iff_example =
    evaluate-peer_iff default Gate.activate replies_and_team (request_from peer) default-activate
      refl

agent-is_not_peer : (request_from agent).sender.kind ≢ peer
agent-is_not_peer e = ground arith

evaluate_local_iff_example :
    ((evaluate default Gate.activate (request_from agent)).allowed ≡ true)
    ↔ LocalAdmitted default Gate.activate replies_and_team (request_from agent)
evaluate_local_iff_example =
    evaluate_local_iff default Gate.activate replies_and_team (request_from agent) default-activate
      agent-is_not_peer

replied : (evaluate_admit default Gate.activate replies_only (request_from agent)).allowed ≡ true
unfolding evaluate_admit evaluate_local is_peer is_local_user
replied = refl

evaluate_admit_mono_example :
    (evaluate_admit default Gate.activate replies_and_trusted (request_from agent)).allowed ≡ true
evaluate_admit_mono_example =
    evaluate_admit_mono default Gate.activate replies_only replies_and_trusted (request_from agent)
      (omega arith) replied
