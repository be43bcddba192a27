-- ===== src/Store/Peers/Attachments.antt =====
-- `recorded_attachment` and `record_attachment`: the files that a send already handed to a peer. A
-- position is below 2^63, and a number of bytes above it is refused.
use vvagent.Base.{
  ℕ, ◌+◌, ◌^◌, Bool, not, ◌&&◌, ◌==◌, [], ◌∷◌, ◌++◌, Option, none, some, Text, codes, if◌then◌else◌,
  find, keep, text_eq, ltb, leb, is_none,
}
use vvagent.Error.{Result, ok, err, new, io, invalid}
use vvagent.Identity.Opaque.{Opaque}
use vvagent.Message.Draft.{max_request_lifetime_ms}
use vvagent.Store.Tables.{Store, AttachmentRow, AuditRow, Caller, audit, find_peer}
use vvagent.Store.Queries.{principal_key}

pub record RecordedAttachment : Type 0 where
  pub peer_id : Opaque
  pub sha256 : Text
  pub bytes : ℕ
  pub remote_path : Text

-- The primary key of `attachment`.
abbrev pub is_attachment : Text → Text → ℕ → AttachmentRow → Bool
is_attachment sender key position a =
    text_eq a.sender sender && text_eq a.key key && a.position == position

unfoldable pub recorded_attachment : Store → Caller → Text → ℕ → Option RecordedAttachment
recorded_attachment s c key position =
    elim (find (is_attachment (principal_key c.principal) key position) s.attachments) [
      | none ↦ none
      | some a ↦ some (record {
        peer_id = a.peer_id;
        sha256 = a.sha256;
        bytes = a.bytes;
        remote_path = a.remote_path;
      })
    ]

abbrev pub attachment_row : ℕ → Caller → Text → ℕ → RecordedAttachment → AttachmentRow
attachment_row now c key position a = record {
  sender = principal_key c.principal;
  key = key;
  position = position;
  peer_id = a.peer_id;
  sha256 = a.sha256;
  bytes = a.bytes;
  remote_path = a.remote_path;
  created_at = now;
}

abbrev pub attach_audit : ℕ → Opaque → ℕ → AuditRow
attach_audit now proxy size = record {
  at_ms = now;
  message_id = none;
  endpoint_id = some proxy;
  operation = codes "attach";
  from_state = none;
  to_state = none;
  rule = none;
  bytes = size;
  result = codes "copied";
}

-- `created_at > now - MAX_REQUEST_LIFETIME_MS`
abbrev pub retryable : ℕ → AttachmentRow → Bool
retryable now a = ltb now (a.created_at + max_request_lifetime_ms)

-- `INSERT OR REPLACE`, after the records that no retry can use are deleted.
unfoldable pub record_attachment :
    Store → ℕ → Caller → Text → ℕ → Opaque → RecordedAttachment → Result (Unit {0}) × Store
record_attachment s now c key position proxy a =
    if leb (2 ^ 63) a.bytes
    then (err (invalid (codes "an attachment larger than i64")), s)
    else if is_none (find_peer s a.peer_id)
    then (err (new io (codes "sqlite: FOREIGN KEY constraint failed")), s)
    else (
      ok tt,
      audit
          (record s {
            attachments =
                keep (λ b. not (is_attachment (principal_key c.principal) key position b))
                  (keep (retryable now) s.attachments)
                ++ attachment_row now c key position a ∷ [];
          })
          (attach_audit now proxy a.bytes),
    )
