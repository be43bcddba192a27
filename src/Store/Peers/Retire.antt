-- ===== src/Store/Peers/Retire.antt =====
-- `retire_peer`: its proxies, and the mail to and from them that still waits.
use vvagent.Base.{
  ℕ, ◌+◌, Bool, true, false, ◌&&◌, List, [], ◌∷◌, none, some, codes, find, keep, length, option_eq,
}
use vvagent.Error.{Result, ok, err, new, not_found, peer_retired}
use vvagent.Error.Code
use vvagent.Identity.AgentState.{offline}
use vvagent.Identity.Opaque.{Opaque, opaque_eq}
use vvagent.Identity.PeerLabel.{PeerLabel}
use vvagent.Message.State
use vvagent.Message.State.{State, undeliverable, is_pending}
use vvagent.Store.Tables.{
  Store, EndpointRow, Message, PeerRow, ProxyRow, AuditRow, audit, is_endpoint, is_message,
}
use vvagent.Store.Rows.{update}
use vvagent.Store.Receive.{is_queued}
use vvagent.Store.Queries.{recount, occupies}
use vvagent.Store.Peers.Pins.{labelled, peer_audit}
use vvagent.Store.Peers.Leases.{has_id}

pub record RetiredPeer : Type 0 where
  pub proxies : ℕ
  pub undeliverable : ℕ
  pub withdrawn : ℕ

abbrev pub retire_audit : ℕ → Opaque → Opaque → State → AuditRow
retire_audit now id endpoint before = record {
  at_ms = now;
  message_id = some id;
  endpoint_id = some endpoint;
  operation = codes "peer_retire";
  from_state = some (State.as_str before);
  to_state = some (State.as_str undeliverable);
  rule = none;
  bytes = 0;
  result = Code.as_str peer_retired;
}

-- `SET state='undeliverable', failure=?2`
abbrev pub give_up : Message → Message
give_up m = record m { state = undeliverable; failure = some peer_retired }

-- The same with `claim_owner=NULL, claim_expires_at=NULL`.
abbrev pub lose : Message → Message
lose m = record m {
  state = undeliverable;
  failure = some peer_retired;
  claim_owner = none;
  claim_expires_at = none;
}

-- `WHERE from_endpoint=?1 AND state='queued'`
abbrev pub unclaimed_from : Opaque → Message → Bool
unclaimed_from id m =
    option_eq opaque_eq m.from_principal.endpoint_id (some id) && is_queued m.state

unfoldable pub withdraw_each : ℕ → List Message → Store → Store
withdraw_each now [] s = s
withdraw_each now (m ∷ ms) s = withdraw_each now ms (
    audit
      (recount m.to_endpoint
        (record s { messages = update (is_message m.message_id) give_up s.messages }))
      (retire_audit now m.message_id m.to_endpoint m.state))

unfoldable pub lose_each : ℕ → Opaque → List Message → Store → Store
lose_each now id [] s = s
lose_each now id (m ∷ ms) s = lose_each now id ms (
    audit (record s { messages = update (is_message m.message_id) lose s.messages })
      (retire_audit now m.message_id id m.state))

abbrev pub retire_endpoint : EndpointRow → EndpointRow
retire_endpoint e = record e {
  incarnation_id = none;
  online = false;
  state = offline;
  state_generation = e.state_generation + 1;
}

-- One round of the loop: how many messages were lost and withdrawn.
unfoldable pub retire_proxy : ℕ → Opaque → Store → (ℕ × ℕ) × Store
unfolding withdraw_each lose_each
retire_proxy now id s =
    let unclaimed = keep (unclaimed_from id) s.messages in
    let withdrawn = withdraw_each now unclaimed s in
    let waiting = keep (occupies id) withdrawn.messages in
    let lost = recount id (lose_each now id waiting withdrawn) in
    (
      (length waiting, length unclaimed),
      record lost { endpoints = update (is_endpoint id) retire_endpoint lost.endpoints },
    )

unfoldable pub retire_each : ℕ → List ProxyRow → Store → (ℕ × ℕ) × Store
unfolding retire_proxy
retire_each now [] s = ((0, 0), s)
retire_each now (x ∷ xs) s =
    let first = retire_proxy now x.endpoint_id s in
    let others = retire_each now xs first.1 in
    ((first.0.0 + others.0.0, first.0.1 + others.0.1), others.1)

abbrev pub forget : PeerRow → PeerRow
forget p = record p {
  retired = true;
  label = none;
  trusted = false;
  lease = none;
  lease_anchor = none;
}

abbrev pub proxies_of : Opaque → Store → List ProxyRow
proxies_of peer_id s = keep (λ x. opaque_eq x.peer_id peer_id) s.proxies

unfoldable pub retire_peer : Store → ℕ → PeerLabel → Result RetiredPeer × Store
unfolding retire_each
retire_peer s now l = elim (find (labelled l) s.peers) [
  | none ↦ (err (new not_found (codes "no such peer")), s)
  | some p ↦
      let (lost, emptied) = retire_each now (proxies_of p.peer_id s) s in
      (
        ok (record {
          proxies = length (proxies_of p.peer_id s);
          undeliverable = lost.0;
          withdrawn = lost.1;
        }),
        audit (record emptied { peers = update (has_id p.peer_id) forget emptied.peers })
            (peer_audit now (codes "peer_retire") (codes "ok")),
      )
]
