-- ===== src/Store/Queries.antt =====
-- What an operation asks the store before it changes it: who may act, and what a gate decides.
use vvagent.Base.{
  ℕ, Bool, false, not, ◌&&◌, ◌++◌, Option, none, some, Text, codes, if◌then◌else◌, find,
  is_some_and, option_eq, ltb, unwrap_or, length, keep,
}
use vvagent.Error.{
  Result, ok, err, ◌>>=◌, new, ok_or, not_found, not_authorized, claim_lost, peer_retired, io,
}
use vvagent.Address.Defs.{Address}
use vvagent.Identity.Opaque
use vvagent.Identity.Opaque.{Opaque, opaque_eq}
use vvagent.Message.Kind.{response}
use vvagent.Message.PrincipalKind.{is_peer}
use vvagent.Message.Principal.{Principal}
use vvagent.Message.State.{is_pending}
use vvagent.Policy.Defs.{Gate, Policy, Decision, evaluate, default}
use vvagent.Store.Tables.{
  Store, EndpointRow, Message, Caller, load_message, find_endpoint, find_proxy, find_peer,
  is_endpoint,
}
use vvagent.Store.Rows.{update, total}

unfoldable pub agent_identity : Caller → Result (Opaque × Opaque)
agent_identity c = elim c.principal.endpoint_id [
  | none ↦ err (
      new not_authorized
        (codes "this operation needs a bound endpoint; the local user has no mailbox"))
  | some endpoint ↦ elim c.principal.incarnation_id [
    | none ↦ err (
        new not_authorized
          (codes "this operation needs a bound endpoint; the local user has no mailbox"))
    | some incarnation ↦ ok (endpoint, incarnation)
  ]
]

-- The idempotency namespace of a sender.
unfoldable pub principal_key : Principal → Text
principal_key p = elim p.endpoint_id [
  | none ↦ codes "local_user"
  | some id ↦ codes "agent:" ++ Opaque.as_str id
]

-- The incarnation that an endpoint is bound to, if it is known and bound.
abbrev pub live_binding : Store → Opaque → Option Opaque
live_binding s id = elim (find_endpoint s id) [ none ↦ none | some e ↦ e.incarnation_id ]

unfoldable pub require_current_incarnation : Store → Opaque → Opaque → Result (Unit {0})
require_current_incarnation s id incarnation = elim (live_binding s id) [
  | none ↦ err (new not_authorized (codes "this endpoint has no live binding"))
  | some live ↦
      if opaque_eq live incarnation
      then ok tt
      else err (
          new claim_lost
            (codes "this endpoint has been rebound; a superseded incarnation cannot act for it"))
]

abbrev pub holds_lease : ℕ → Opaque → Opaque × ℕ → Bool
holds_lease now owner (holder, expires_at) = opaque_eq holder owner && ltb now expires_at

unfoldable pub require_live_lease : Store → ℕ → Opaque → Opaque → Result (Unit {0})
require_live_lease s now peer_id owner =
    elim (find (λ p. opaque_eq p.peer_id peer_id && not p.retired) s.peers) [
      | none ↦ err (new peer_retired (codes "that peer was forgotten"))
      | some peer ↦
          if is_some_and peer.lease (holds_lease now owner)
          then ok tt
          else err (new claim_lost (codes "this bridge no longer holds the peer's lease"))
    ]

-- A `peer` caller must still be its peer's live bridge.
unfoldable pub require_peer_authority : Store → ℕ → Caller → Result (Unit {0})
unfolding agent_identity require_live_lease
require_peer_authority s now c =
    if not (is_peer c.principal.kind)
    then ok tt
    else agent_identity c >>= λ who.
        ok_or (find_proxy s who.0) (new not_found (codes "no such proxy")) >>= λ proxy.
        require_live_lease s now proxy.peer_id who.1

-- Whether the whole host of a `peer` sender is trusted.
unfoldable pub peer_trusted : Store → Principal → Bool
peer_trusted s sender = elim sender.endpoint_id [
  | none ↦ false
  | some id ↦
      is_peer sender.kind
      && is_some_and (find_proxy s id)
          (λ x. is_some_and (find_peer s x.peer_id) (λ p. p.trusted && not p.retired))
]

abbrev pub address_of : Store → Option Opaque → Option Address
address_of s none = none
address_of s (some id) = elim (find_endpoint s id) [ none ↦ none | some e ↦ e.address ]

abbrev pub scope_of : Store → Option Opaque → Option Opaque
scope_of s none = none
scope_of s (some id) = elim (find_endpoint s id) [
  | none ↦ none
  | some e ↦ some e.runtime_instance_id
]

abbrev pub policy_of : EndpointRow → Policy
policy_of e = unwrap_or e.policy default

-- The message answers a request that its recipient sent.
unfoldable pub answers_own_request : Store → Message → Bool
answers_own_request s m = elim m.kind [
  | response ↦ is_some_and m.reply_to (λ id. elim (load_message s id) [
    | err e ↦ false
    | ok request ↦ option_eq opaque_eq request.from_principal.endpoint_id (some m.to_endpoint)
  ])
  | _ ↦ false
]

unfoldable pub message_decision : Store → Message → Gate → Result Decision
unfolding answers_own_request peer_trusted
message_decision s m gate =
    ok_or (find_endpoint s m.to_endpoint) (new io (codes "sqlite: Query returned no rows"))
    >>= λ target. ok (
        evaluate (policy_of target) gate (record {
          sender = m.from_principal;
          sender_scope = scope_of s m.from_principal.endpoint_id;
          target_scope = target.runtime_instance_id;
          is_reply_to_our_request = answers_own_request s m;
          sender_address = address_of s m.from_principal.endpoint_id;
          target_address = target.address;
          peer_trusted = peer_trusted s m.from_principal;
        }))

-- The message occupies capacity of this endpoint.
abbrev pub occupies : Opaque → Message → Bool
occupies id m = opaque_eq m.to_endpoint id && is_pending m.state

abbrev pub counted : Store → EndpointRow → EndpointRow
counted s e = record e {
  pending_count = length (keep (occupies e.endpoint_id) s.messages);
  pending_bytes = total (occupies e.endpoint_id) (λ m. m.bytes) s.messages;
}

-- `recount`
unfoldable pub recount : Opaque → Store → Store
recount id s = record s { endpoints = update (is_endpoint id) (counted s) s.endpoints }
