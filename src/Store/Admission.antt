-- ===== src/Store/Admission.antt =====
-- The numbered steps of `Store::send_as`: what was sent before, where the draft may go, whether it is a
-- reply, the enqueue gate, the rate, the quota, and the message that is inserted.
use vvagent.Base.{
  ℕ, ◌+◌, min, Bool, true, false, not, ◌&&◌, ◌||◌, Option, none, some, Text, codes, if◌then◌else◌,
  find, option_eq, text_eq, ltb, leb, length, keep,
}
use vvagent.Base.Int.{pos_part}
use vvagent.Error.{Result, ok, err, ◌>>=◌, new, not_authorized, peer_retired, io}
use vvagent.Identity.Opaque.{Opaque, opaque_eq}
use vvagent.Identity.RuntimeKind.{kind_eq}
use vvagent.Identity.RuntimeKind
use vvagent.Message.Kind.{Kind, request, notice, may_use_reserve}
use vvagent.Message.State.{queued}
use vvagent.Message.PrincipalKind.{is_peer}
use vvagent.Message.Draft.{Draft, max_request_lifetime_ms}
use vvagent.Policy.Defs.{Gate, Decision, Rule, evaluate}
use vvagent.Store.Tables.{
  Store, EndpointRow, Message, IdempotencyRow, AuditRow, Caller, load_message, find_proxy,
  find_peer, is_message, max_pending_count, max_pending_bytes, reserved_count, reserved_bytes,
  saturating_add,
}
use vvagent.Store.Queries.{peer_trusted, address_of, policy_of}

abbrev pub is_request : Kind → Bool
is_request request = true
is_request _ = false

-- An audit row of `send`.
abbrev pub send_audit :
    ℕ → Option Opaque → Option Opaque → Option Text → Option Rule → ℕ → Text → AuditRow
send_audit now message target to_state rule size outcome = record {
  at_ms = now;
  message_id = message;
  endpoint_id = target;
  operation = codes "send";
  from_state = none;
  to_state = to_state;
  rule = rule;
  bytes = size;
  result = outcome;
}

-- Step 1: what was sent under this key before.
unfoldable pub prior_send : Store → Text → Text → Option IdempotencyRow
prior_send s sender key =
    find (λ row. text_eq row.sender sender && text_eq row.key key) s.idempotency

-- Step 2, for a target on a peer host.
unfoldable pub routable : Store → Caller → EndpointRow → Result (Unit {0})
routable s c target =
    if kind_eq target.runtime_kind RuntimeKind.peer
    then if is_peer c.principal.kind
      then err (new not_authorized (codes "a peer cannot route through this host to another peer"))
      else elim (find_proxy s target.endpoint_id) [
        | none ↦ err (new io (codes "sqlite: Query returned no rows"))
        | some proxy ↦ elim (find_peer s proxy.peer_id) [
          | none ↦ err (new io (codes "sqlite: Query returned no rows"))
          | some peer ↦
              if peer.retired
              then err (new peer_retired (codes "that agent's peer host was forgotten"))
              else ok tt
        ]
      ]
    else ok tt

-- Step 3: whether the draft answers something that the target asked for.
unfoldable pub is_reply : Store → Caller → Draft → Result Bool
is_reply s c d = elim d.reply_to [
  | none ↦ ok false
  | some id ↦ load_message s id >>= λ asked.
      if not (is_request asked.kind)
        || not (option_eq opaque_eq c.principal.endpoint_id (some asked.to_endpoint))
        || not (option_eq opaque_eq asked.from_principal.endpoint_id (some d.to))
      then err
          (new not_authorized (codes "a response must answer a request addressed to this endpoint"))
      else ok (option_eq opaque_eq asked.from_principal.endpoint_id (some d.to))
]

-- Step 4: the enqueue gate.
unfoldable pub enqueue_decision : Store → Caller → Draft → EndpointRow → Bool → Decision
enqueue_decision s c d target reply = evaluate (policy_of target) Gate.enqueue (record {
  sender = c.principal;
  sender_scope = c.scope;
  target_scope = target.runtime_instance_id;
  is_reply_to_our_request = reply;
  sender_address = address_of s c.principal.endpoint_id;
  target_address = address_of s (some d.to);
  peer_trusted = peer_trusted s c.principal;
})

-- Step 5: what this target accepted in the last minute.
abbrev pub accepted_since : ℕ → Opaque → AuditRow → Bool
accepted_since now target row =
    option_eq opaque_eq row.endpoint_id (some target)
    && text_eq row.operation (codes "send")
    && text_eq row.result (codes "accepted")
    && ltb now (row.at_ms + 60000)

unfoldable pub over_rate : Store → ℕ → Draft → EndpointRow → Bool
over_rate s now d target =
    not (may_use_reserve d.kind)
    && leb (policy_of target).max_inbound_per_minute
        (length (keep (accepted_since now d.to) s.audits))

-- Step 6: responses may reach into the reserve.
abbrev pub count_cap : Kind → ℕ
count_cap kind =
    if may_use_reserve kind then max_pending_count + reserved_count else max_pending_count

abbrev pub byte_cap : Kind → ℕ
byte_cap kind =
    if may_use_reserve kind then max_pending_bytes + reserved_bytes else max_pending_bytes

unfoldable pub over_quota : Draft → EndpointRow → ℕ → Bool
over_quota d target size =
    ltb (count_cap d.kind) (target.pending_count + 1)
    || ltb (byte_cap d.kind) (target.pending_bytes + size)

-- Step 7.
abbrev pub notice_lifetime_ms : ℕ
notice_lifetime_ms = 3600000

abbrev pub lifetime : Draft → Option ℕ
lifetime d = elim d.expires_in_ms [
  | some t ↦ some (pos_part t)
  | none ↦ elim d.kind [ notice ↦ some notice_lifetime_ms | _ ↦ none ]
]

abbrev pub expiry : ℕ → Option ℕ → Option ℕ
expiry now none = none
expiry now (some t) = some (saturating_add now (min t max_request_lifetime_ms))

abbrev pub conversation : Store → Draft → Opaque → Opaque
conversation s d fresh = elim d.reply_to [
  | none ↦ fresh
  | some id ↦ elim (find (is_message id) s.messages) [
    | none ↦ fresh
    | some asked ↦ asked.conversation_id
  ]
]

abbrev pub new_message :
    Store → ℕ → Opaque → Opaque → Caller → Draft → Option Opaque → ℕ → ℕ → Message
new_message s now id fresh c d origin sequence size = record {
  message_id = id;
  to_endpoint = d.to;
  from_principal = c.principal;
  kind = d.kind;
  conversation_id = conversation s d fresh;
  reply_to = d.reply_to;
  outcome = d.outcome;
  recipient_sequence = sequence;
  state = queued;
  subject = d.subject;
  text = d.text;
  refs = d.refs;
  created_at = now;
  expires_at = expiry now (lifetime d);
  failure = none;
  origin_message_id = origin;
  bytes = size;
  claim_owner = none;
  claim_expires_at = none;
  activations = 0;
  last_activated_at = none;
  group_send_id = none;
}

abbrev pub charge : ℕ → EndpointRow → EndpointRow
charge size e = record e {
  next_sequence = e.next_sequence + 1;
  pending_count = e.pending_count + 1;
  pending_bytes = e.pending_bytes + size;
}
