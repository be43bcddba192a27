-- ===== src/Store/Ending.antt =====
-- `cancel` and `sweep`, which take messages out of a mailbox.
use vvagent.Base.{
  ℕ, Bool, true, false, not, ◌&&◌, ◌||◌, List, [], ◌∷◌, none, some, codes, if◌then◌else◌, is_none,
  is_some_and, option_eq, ltb, leb,
}
use vvagent.Error.{Result, ok, err, ◌>>=◌, ◌>>◌, new, not_authorized}
use vvagent.Identity.Opaque.{Opaque, opaque_eq}
use vvagent.Message.State
use vvagent.Message.State.{State, claimed, delivered, cancellation_requested, cancelled, expired}
use vvagent.Message.PrincipalKind.{is_local_user}
use vvagent.Store.Tables.{Store, Message, AuditRow, Caller, audit, load_message, is_message}
use vvagent.Store.Queries.{
  agent_identity, require_current_incarnation, require_peer_authority, recount,
}
use vvagent.Store.Rows.{update, changed}
use vvagent.Store.Receive.{is_claimed, is_queued, lapsed, reclaim, set_state}

-- `cancel`
abbrev pub may_cancel : Store → ℕ → Caller → Result (Unit {0})
may_cancel s now c =
    if is_local_user c.principal.kind
    then ok tt
    else agent_identity c >>= λ who.
        require_current_incarnation s who.0 who.1 >> require_peer_authority s now c

abbrev pub running : State → Bool
running claimed = true
running delivered = true
running _ = false

abbrev pub is_queued_message : Opaque → Message → Bool
is_queued_message id m = is_message id m && is_queued m.state

abbrev pub is_running_message : Opaque → Message → Bool
is_running_message id m = is_message id m && running m.state

unfoldable pub apply_cancel : Message → Store → State × Store
apply_cancel m s =
    if ltb 0 (changed (is_queued_message m.message_id) s.messages)
    then (
      cancelled,
      recount m.to_endpoint (record s {
        messages = update (is_queued_message m.message_id) (set_state cancelled) s.messages;
      }),
    )
    else if ltb 0 (changed (is_running_message m.message_id) s.messages)
    then (
      cancellation_requested,
      record s {
        messages =
            update (is_running_message m.message_id) (set_state cancellation_requested) s.messages;
      },
    )
    else (m.state, s)

abbrev pub cancel_audit : ℕ → Message → State → AuditRow
cancel_audit now m state = record {
  at_ms = now;
  message_id = some m.message_id;
  endpoint_id = some m.to_endpoint;
  operation = codes "cancel";
  from_state = some (State.as_str m.state);
  to_state = some (State.as_str state);
  rule = none;
  bytes = 0;
  result = codes "ok";
}

abbrev pub is_sender : Caller → Message → Bool
is_sender c m = elim c.principal.endpoint_id [
  | none ↦ is_none m.from_principal.endpoint_id
  | some id ↦ option_eq opaque_eq m.from_principal.endpoint_id (some id)
]

unfoldable pub cancel : Store → ℕ → Caller → Opaque → Result State × Store
unfolding apply_cancel
cancel s now c id = elim (may_cancel s now c >> load_message s id) [
  | err e ↦ (err e, s)
  | ok m ↦
      if not (is_sender c m)
      then (err (new not_authorized (codes "only the sender may cancel a request")), s)
      else let (state, after) = apply_cancel m s in
        (ok state, audit after (cancel_audit now m state))
]

-- `sweep`
abbrev pub overdue : ℕ → Message → Bool
overdue now m =
    is_some_and m.expires_at (λ t. leb t now) && (is_queued m.state || is_claimed m.state)

abbrev pub is_expired : Message → Bool
is_expired m = elim m.state [ expired ↦ true | _ ↦ false ]

-- `SELECT DISTINCT`: a second recount of one endpoint changes nothing.
unfoldable pub recount_each : List Message → Store → Store
recount_each [] s = s
recount_each (m ∷ ms) s = recount_each ms (if is_expired m then recount m.to_endpoint s else s)

unfoldable pub sweep : ℕ → Store → (ℕ × ℕ) × Store
unfolding reclaim recount_each
sweep now s =
    let requeued = reclaim now s in
    let retired = record requeued {
      messages = update (overdue now) (set_state expired) requeued.messages;
    } in
    (
      (changed (lapsed now) s.messages, changed (overdue now) requeued.messages),
      if ltb 0 (changed (overdue now) requeued.messages)
          then recount_each retired.messages retired
          else retired,
    )
