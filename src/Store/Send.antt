-- ===== src/Store/Send.antt =====
-- `Store::send_as`, which `send` and `ingest` call, in the numbered steps of the source. The clock,
-- the two fresh ids, the JSON of the references and SHA-256 are arguments. A step that fails inside
-- the transaction without a commit leaves the store as it was.
use vvagent.Base.{
  ℕ, Bool, not, List, [], ◌∷◌, ◌++◌, Option, none, some, Text, codes, if◌then◌else◌, find, is_some,
  is_none, text_eq,
}
use vvagent.Error.{
  Result, ok, err, ◌>>◌, new, invalid, ok_or, agent_not_found, idempotency_conflict, policy_refused,
  rate_limited, mailbox_full, io,
}
use vvagent.Identity.Opaque.{Opaque}
use vvagent.Address.Decimal.{decimal}
use vvagent.Message.State
use vvagent.Message.State.{queued}
use vvagent.Message.Ref.{Ref}
use vvagent.Message.Draft
use vvagent.Message.Draft.{Draft, digest, charged_bytes, max_request_lifetime_ms}
use vvagent.Policy.Defs.{Rule}
use vvagent.Store.Tables.{
  Store, EndpointRow, Message, IdempotencyRow, Caller, audit, load_message, find_endpoint,
  is_endpoint, is_message,
}
use vvagent.Store.Queries.{principal_key, require_peer_authority, policy_of}
use vvagent.Store.Rows.{update}
use vvagent.Store.Admission.{
  charge, enqueue_decision, is_reply, new_message, over_quota, over_rate, prior_send, routable,
  send_audit,
}

module _ (is_absolute : Text → Bool) (refs_json : List Ref → Option Text) (sha256 : List ℕ → List ℕ)
    (now : ℕ) (fresh_id fresh_conversation : Opaque) (c : Caller) (d : Draft)
    (origin : Option Opaque) where
  -- The message, its recipient's charge, the key and the audit row.
  unfoldable pub inserted : Store → EndpointRow → Rule → Store
  inserted s target rule =
      let size = charged_bytes refs_json d in
      audit
        (record s {
          endpoints = update (is_endpoint d.to) (charge size) s.endpoints;
          messages =
              s.messages
              ++ new_message s now fresh_id fresh_conversation c d origin target.next_sequence size
                ∷ [];
          idempotency =
              s.idempotency
              ++ record {
                sender = principal_key c.principal;
                key = d.idempotency_key;
                digest = digest refs_json sha256 d;
                message_id = fresh_id;
              }
                ∷ [];
        })
        (send_audit now (some fresh_id) (some d.to) (some (State.as_str queued)) (some rule) size
          (codes "accepted"))

  -- A duplicate id breaks the primary key of `message`, and the transaction is dropped.
  unfoldable pub insert : Store → EndpointRow → Rule → Result Message × Store
  unfolding inserted
  insert s target rule =
      let size = charged_bytes refs_json d in
      let m = new_message s now fresh_id fresh_conversation c d origin target.next_sequence size in
      if is_none (refs_json d.refs)
      then (err (invalid (codes "the references have no JSON")), s)
      else if is_some (find (is_message fresh_id) s.messages)
      then (err (new io (codes "sqlite: UNIQUE constraint failed: message.message_id")), s)
      else (ok m, inserted s target rule)

  -- Steps 4 to 7.
  unfoldable pub admit : Store → EndpointRow → Bool → Result Message × Store
  unfolding insert
  admit s target reply =
      let size = charged_bytes refs_json d in
      let decision = enqueue_decision s c d target reply in
      if not decision.allowed
      then (
        err (new policy_refused (codes "the target's enqueue policy does not admit this sender")),
        audit s (
            send_audit now none (some d.to) none (some decision.rule) size
              (codes "policy_refused")),
      )
      else if over_rate s now d target
      then (
        err (
            new rate_limited (
              codes "that endpoint accepts "
              ++ (decimal (policy_of target).max_inbound_per_minute
                  ++ codes " messages a minute and has had them"))),
        audit s
            (send_audit now none (some d.to) none (some decision.rule) size (codes "rate_limited")),
      )
      else if over_quota d target size
      then (
        err (
            new mailbox_full (
              codes
                "the recipient's mailbox is full; accepted work is never evicted to make room")),
        audit s
            (send_audit now none (some d.to) none (some decision.rule) size (codes "mailbox_full")),
      )
      else insert s target decision.rule

  -- Steps 2 and 3.
  unfoldable pub deliver : Store → Result Message × Store
  unfolding admit
  deliver s =
      elim (ok_or (find_endpoint s d.to) (new agent_not_found (codes "no endpoint with that id"))) [
        | err e ↦ (err e, s)
        | ok target ↦ elim (routable s c target >> is_reply s c d) [
          | err e ↦ (err e, s)
          | ok reply ↦ admit s target reply
        ]
      ]

  unfoldable pub replay : Store → IdempotencyRow → Result Message × Store
  replay s row =
      if text_eq row.digest (digest refs_json sha256 d)
      then (load_message s row.message_id, s)
      else (
        err (
            new idempotency_conflict
              (codes "that idempotency key was used for a different message")),
        audit s (
            send_audit now none none none none (charged_bytes refs_json d)
              (codes "idempotency_conflict")),
      )

  unfoldable pub send_as : Store → Result Message × Store
  unfolding deliver replay
  send_as s = elim (Draft.validate is_absolute d >> require_peer_authority s now c) [
    | err e ↦ (err e, s)
    | ok u ↦ elim (prior_send s (principal_key c.principal) d.idempotency_key) [
      | some row ↦ replay s row
      | none ↦ deliver s
    ]
  ]
