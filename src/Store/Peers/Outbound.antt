-- ===== src/Store/Peers/Outbound.antt =====
-- `outbound`, `forwarded`, `forward_failed` and `confirm_remote_cancel`: what a bridge does with the
-- mail on its proxies' outboxes.
use vvagent.Base.{
  ℕ, ◌-◌, min, Bool, true, false, ◌&&◌, List, [], ◌∷◌, Option, none, some, Text, codes,
  if◌then◌else◌, ltb, leb,
}
use vvagent.Base.Int.{ℤ, pos}
use vvagent.Bridge.Frame.{Deliver, WireRef, sender, recipient, validate_deliver}
use vvagent.Error.{ErrorCode, Result, ok, err, ◌>>=◌, ◌>>◌, ok_or, new, store_corrupt, invalid}
use vvagent.Error.Code
use vvagent.Identity.Opaque.{Opaque, opaque_eq}
use vvagent.Message.Kind.{Kind, response}
use vvagent.Message.Ref.{Ref, file, pane, media}
use vvagent.Message.State
use vvagent.Message.State.{
  State, claimed, delivered, consumed, cancelled, cancellation_requested, undeliverable,
}
use vvagent.Message.Draft.{max_request_lifetime_ms}
use vvagent.Store.Tables.{
  Store, Message, ProxyRow, AuditRow, Caller, audit, load_message, is_message,
}
use vvagent.Store.Rows.{update, changed}
use vvagent.Store.Queries.{agent_identity, require_peer_authority, recount}
use vvagent.Store.Admission.{is_request}
use vvagent.Store.Unbinding.{held_by}

-- A reference as the peer is to read it.
unfoldable pub wire_ref : Opaque → Ref → Result WireRef
wire_ref peer_id (file path sha256 size none) =
    ok (record { on = sender; reference = file path sha256 size none })
wire_ref peer_id (file path sha256 size (some host)) =
    if opaque_eq host peer_id
    then ok (record { on = recipient; reference = file path sha256 size none })
    else err
        (invalid (codes "a reference names a file on a third host, which this peer cannot reach"))
wire_ref peer_id (pane instance p) = ok (record { on = sender; reference = pane instance p })
wire_ref peer_id (media instance id binding) =
    ok (record { on = sender; reference = media instance id binding })

unfoldable pub wire_refs : Opaque → List Ref → Result (List WireRef)
unfolding wire_ref
wire_refs peer_id [] = ok []
wire_refs peer_id (r ∷ rs) = wire_ref peer_id r >>= λ w. wire_refs peer_id rs >>= λ ws. ok (w ∷ ws)

-- The peer's own id for the request that a response answers.
unfoldable pub reply_origin : Store → Message → Result (Option Opaque)
reply_origin s m = elim m.kind [
  | response ↦ ok_or m.reply_to (new store_corrupt (codes "an orphan response")) >>= λ asked.
      load_message s asked >>= λ found.
      ok_or found.origin_message_id
        (invalid (codes "that response answers a request the peer did not send"))
      >>= λ origin. ok (some origin)
  | _ ↦ ok none
]

unfoldable pub remaining_lifetime : ℕ → Option ℕ → Result (Option ℤ)
remaining_lifetime now none = ok none
remaining_lifetime now (some expires) =
    if leb expires now
    then err (new ErrorCode.expired (codes "the message expired before it reached the peer"))
    else ok (some (pos (min (expires - now) max_request_lifetime_ms)))

unfoldable pub outbound : (Text → Bool) → Store → ProxyRow → Message → ℕ → Result Deliver
unfolding wire_refs reply_origin remaining_lifetime
outbound is_absolute s x m now =
    ok_or m.from_principal.endpoint_id
      (invalid (codes "the sender has no mailbox for the peer to answer"))
    >>= λ origin. wire_refs x.peer_id m.refs >>= λ refs. reply_origin s m >>= λ asked.
        remaining_lifetime now m.expires_at >>= λ left.
        let d : Deliver = record {
          origin_message_id = m.message_id;
          origin_endpoint_id = origin;
          to_endpoint_id = x.remote_endpoint_id;
          kind = m.kind;
          reply_to_origin = asked;
          outcome = m.outcome;
          subject = m.subject;
          text = m.text;
          refs = refs;
          remaining_lifetime_ms = left;
        } in
        validate_deliver is_absolute d >> ok d

-- `CASE WHEN ?4 IS NOT NULL THEN 'undeliverable' WHEN kind = 'request' THEN 'delivered' ELSE 'consumed'`
abbrev pub settled_state : Option ErrorCode → Kind → State
settled_state (some code) kind = undeliverable
settled_state none kind = if is_request kind then delivered else consumed

abbrev pub settle : Option ErrorCode → Message → Message
settle failure m = record m {
  state = settled_state failure m.kind;
  failure = failure;
  claim_owner = none;
  claim_expires_at = none;
}

-- `message_id=?1 AND to_endpoint=?2 AND state='claimed' AND claim_owner=?3`
abbrev pub in_flight : Opaque → Opaque → Opaque → Message → Bool
in_flight id proxy owner m = is_message id m && opaque_eq m.to_endpoint proxy && held_by owner m

abbrev pub forward_audit : ℕ → Opaque → Opaque → State → Option ErrorCode → AuditRow
forward_audit now id proxy state failure = record {
  at_ms = now;
  message_id = some id;
  endpoint_id = some proxy;
  operation = codes "forward";
  from_state = some (State.as_str claimed);
  to_state = some (State.as_str state);
  rule = none;
  bytes = 0;
  result = elim failure [ none ↦ codes "accepted" | some code ↦ Code.as_str code ];
}

-- The transaction of `settle_outbound`; where the message cannot be read back it is dropped.
unfoldable pub apply_settle :
    Store → ℕ → Opaque → Opaque → Opaque → Option ErrorCode → Result Bool × Store
apply_settle s now proxy owner id failure =
    let after =
      recount proxy
        (record s { messages = update (in_flight id proxy owner) (settle failure) s.messages }) in
    if ltb 0 (changed (in_flight id proxy owner) s.messages)
    then elim (load_message after id) [
      | err e ↦ (err e, s)
      | ok m ↦ (ok true, audit after (forward_audit now id proxy m.state failure))
    ]
    else (ok false, s)

unfoldable pub settle_outbound :
    Store → ℕ → ℕ → Caller → Opaque → Option ErrorCode → Result Bool × Store
unfolding apply_settle
settle_outbound s checked now c id failure =
    elim (agent_identity c >>= λ who. require_peer_authority s checked c >> ok who) [
      | err e ↦ (err e, s)
      | ok (proxy, owner) ↦ apply_settle s now proxy owner id failure
    ]

unfoldable pub forwarded : Store → ℕ → ℕ → Caller → Opaque → Result Bool × Store
unfolding settle_outbound
forwarded s checked now c id = settle_outbound s checked now c id none

unfoldable pub forward_failed : Store → ℕ → ℕ → Caller → Opaque → ErrorCode → Result Bool × Store
unfolding settle_outbound
forward_failed s checked now c id code = settle_outbound s checked now c id (some code)

abbrev pub is_cancelled : State → Bool
is_cancelled cancelled = true
is_cancelled _ = false

-- `state IN ('claimed','delivered','cancellation_requested')`
abbrev pub started : State → Bool
started claimed = true
started delivered = true
started cancellation_requested = true
started _ = false

abbrev pub stoppable : Opaque → Opaque → Message → Bool
stoppable id proxy m = is_message id m && opaque_eq m.to_endpoint proxy && started m.state

abbrev pub stop : Message → Message
stop m = record m { state = cancelled; claim_owner = none; claim_expires_at = none }

abbrev pub remote_cancel_audit : ℕ → Opaque → Opaque → AuditRow
remote_cancel_audit now id proxy = record {
  at_ms = now;
  message_id = some id;
  endpoint_id = some proxy;
  operation = codes "cancel";
  from_state = none;
  to_state = some (State.as_str cancelled);
  rule = none;
  bytes = 0;
  result = codes "confirmed_by_peer";
}

unfoldable pub apply_remote_cancel : Store → ℕ → Opaque → Opaque → State → Store
apply_remote_cancel s now proxy id state =
    if is_cancelled state && ltb 0 (changed (stoppable id proxy) s.messages)
    then audit (recount proxy (record s { messages = update (stoppable id proxy) stop s.messages }))
        (remote_cancel_audit now id proxy)
    else s

unfoldable pub confirm_remote_cancel :
    Store → ℕ → ℕ → Caller → Opaque → State → Result State × Store
unfolding apply_remote_cancel
confirm_remote_cancel s checked now c id state =
    elim (agent_identity c >>= λ who. require_peer_authority s checked c >> ok who) [
      | err e ↦ (err e, s)
      | ok (proxy, owner) ↦
          let after = apply_remote_cancel s now proxy id state in
          elim (load_message after id) [ err e ↦ (err e, s) | ok m ↦ (ok m.state, after) ]
    ]
