-- ===== src/Store/Respond.antt =====
-- `respond` and `confirm_interrupt`, which end a message's claim.
use vvagent.Base.{
  ℕ, ◌-◌, Bool, true, false, not, ◌&&◌, List, ◌++◌, Option, none, some, Text, codes, if◌then◌else◌,
  option_eq, ltb, any, len,
}
use vvagent.Error.{
  Result, ok, err, ◌>>=◌, ◌>>◌, new, invalid, refuse_if, not_authorized, already_responded,
}
use vvagent.Identity.Opaque.{Opaque, opaque_eq}
use vvagent.Message.Kind.{response}
use vvagent.Message.Outcome
use vvagent.Message.Outcome.{Outcome}
use vvagent.Message.State
use vvagent.Message.State.{
  State, queued, claimed, consumed, cancellation_requested, cancelled, expired, undeliverable,
  is_pending,
}
use vvagent.Message.Ref.{Ref}
use vvagent.Message.Draft.{Draft}
use vvagent.Policy.Defs.{Rule}
use vvagent.Store.Tables.{
  Store, EndpointRow, Message, AuditRow, Caller, audit, load_message, is_endpoint, is_message,
}
use vvagent.Store.Queries.{
  agent_identity, require_current_incarnation, require_peer_authority, recount,
}
use vvagent.Store.Send.{send_as}
use vvagent.Store.Admission.{is_request}
use vvagent.Store.Receive.{release}
use vvagent.Store.Rows.{update, changed}

abbrev pub settled_already : State → Bool
settled_already consumed = true
settled_already cancelled = true
settled_already expired = true
settled_already undeliverable = true
settled_already _ = false

-- What `respond` asks of the request, and the endpoint that it came from.
unfoldable pub check_request : Message → Opaque → Result Opaque
check_request m me =
    refuse_if (not (is_request m.kind)) (codes "only a request can be answered")
    >> (if not (opaque_eq m.to_endpoint me)
        then err (new not_authorized (codes "that request was not addressed to this endpoint"))
        else elim m.from_principal.endpoint_id [
          | none ↦
              err (
                invalid
                  (codes "that request came from the local user and has no mailbox to answer"))
          | some requester ↦
              if settled_already m.state
              then err
                  (new already_responded (codes "that request is already " ++ State.as_str m.state))
              else ok requester
        ])

-- The guards of `respond`.
unfoldable pub answerable : Store → ℕ → Caller → Opaque → Result (Message × Opaque)
unfolding check_request
answerable s now c id = agent_identity c >>= λ who.
    require_current_incarnation s who.0 who.1
    >> (require_peer_authority s now c
        >> (load_message s id >>= λ m. check_request m who.0 >>= λ requester. ok (m, requester)))

abbrev pub response_draft : Message → Opaque → Outcome → Text → List Ref → Text → Draft
response_draft m requester outcome text refs key = record {
  to = requester;
  kind = response;
  reply_to = some m.message_id;
  outcome = some outcome;
  subject = m.subject;
  text = text;
  refs = refs;
  idempotency_key = key;
  expires_in_ms = none;
}

abbrev pub is_open : Opaque → Message → Bool
is_open id m = is_message id m && is_pending m.state

abbrev pub discharge : ℕ → EndpointRow → EndpointRow
discharge size e = record e {
  pending_count = e.pending_count - 1;
  pending_bytes = e.pending_bytes - size;
}

abbrev pub respond_audit : ℕ → Message → Text → AuditRow
respond_audit now m outcome = record {
  at_ms = now;
  message_id = some m.message_id;
  endpoint_id = some m.to_endpoint;
  operation = codes "respond";
  from_state = none;
  to_state = some (State.as_str consumed);
  rule = none;
  bytes = 0;
  result = outcome;
}

-- The second transaction of `respond`: the request is retired and its mailbox recomputed.
unfoldable pub retire_request : ℕ → Message → Outcome → Store → Store
retire_request now m outcome s =
    let gone = record s {
      messages = update (is_open m.message_id) (release consumed) s.messages;
    } in
    audit
      (if ltb 0 (changed (is_open m.message_id) s.messages)
        then recount m.to_endpoint (record gone {
          endpoints = update (is_endpoint m.to_endpoint) (discharge (len m.text)) gone.endpoints;
        })
        else gone)
      (respond_audit now m (Outcome.as_str outcome))

module _ (is_absolute : Text → Bool) (refs_json : List Ref → Option Text)
    (sha256 : List ℕ → List ℕ) where
  -- `send` runs in a transaction of its own, at a first reading of the clock.
  unfoldable pub respond :
      Store
      → ℕ
      → ℕ
      → Opaque
      → Opaque
      → Caller
      → Opaque
      → Outcome
      → Text
      → List Ref
      → Text
      → Result Message × Store
  unfolding answerable retire_request
  respond s now later fresh_id fresh_conversation c id outcome text refs key =
      elim (answerable s now c id) [
        | err e ↦ (err e, s)
        | ok (m, requester) ↦
            let sent =
              send_as is_absolute refs_json sha256 now fresh_id fresh_conversation c
                (response_draft m requester outcome text refs key) none s in
            elim sent.0 [
              | err e ↦ (err e, sent.1)
              | ok reply ↦ (ok reply, retire_request later m outcome sent.1)
            ]
      ]

-- A cancellation that its own live owner can confirm.
abbrev pub confirmable : Store → Opaque → Opaque → Message → Bool
confirmable s id incarnation m =
    is_message id m
    && (elim m.state [ cancellation_requested ↦ true | _ ↦ false ])
    && option_eq opaque_eq m.claim_owner (some incarnation)
    && any
        (λ e.
          opaque_eq e.endpoint_id m.to_endpoint
          && option_eq opaque_eq e.incarnation_id (some incarnation)
          && e.online)
        s.endpoints

abbrev pub confirm : Message → Message
confirm m = record m {
  state = cancelled;
  outcome = some Outcome.cancelled;
  claim_owner = none;
  claim_expires_at = none;
}

abbrev pub interrupt_audit : ℕ → Message → AuditRow
interrupt_audit now m = record {
  at_ms = now;
  message_id = some m.message_id;
  endpoint_id = some m.to_endpoint;
  operation = codes "interrupt";
  from_state = some (State.as_str cancellation_requested);
  to_state = some (State.as_str cancelled);
  rule = some Rule.anyone;
  bytes = 0;
  result = codes "confirmed";
}

unfoldable pub apply_confirm : Store → ℕ → Opaque → Message → Store
apply_confirm s now incarnation m =
    if ltb 0 (changed (confirmable s m.message_id incarnation) s.messages)
    then audit
        (recount m.to_endpoint (record s {
          messages = update (confirmable s m.message_id incarnation) confirm s.messages;
        }))
        (interrupt_audit now m)
    else s

unfoldable pub confirm_interrupt : Store → ℕ → Opaque → Opaque → Result State × Store
unfolding apply_confirm
confirm_interrupt s now id incarnation = elim (load_message s id) [
  | err e ↦ (err e, s)
  | ok m ↦
      let after = apply_confirm s now incarnation m in
      (load_message after id >>= λ left. ok left.state, after)
]
