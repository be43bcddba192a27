-- ===== src/Error/Code.antt =====
-- agent-mesh-core/src/lib.rs: how an `ErrorCode` is spelled, in the audit trail and on the wire.
use vvagent.Base.{Text, codes}
use vvagent.Error.{
  ErrorCode, agent_not_found, agent_ambiguous, idempotency_conflict, mailbox_full, claim_lost,
  not_authorized, invalid_request, endpoint_limit, not_found, already_responded, expired,
  schema_mismatch, store_corrupt, policy_refused, rate_limited, peer_mismatch, peer_retired,
  peer_unreachable, file_drop_unavailable, attachment_mismatch, io,
}

unfoldable pub as_str : ErrorCode → Text
as_str agent_not_found = codes "agent_not_found"
as_str agent_ambiguous = codes "agent_ambiguous"
as_str idempotency_conflict = codes "idempotency_conflict"
as_str mailbox_full = codes "mailbox_full"
as_str claim_lost = codes "claim_lost"
as_str not_authorized = codes "not_authorized"
as_str invalid_request = codes "invalid_request"
as_str endpoint_limit = codes "endpoint_limit"
as_str not_found = codes "not_found"
as_str already_responded = codes "already_responded"
as_str expired = codes "expired"
as_str schema_mismatch = codes "schema_mismatch"
as_str store_corrupt = codes "store_corrupt"
as_str policy_refused = codes "policy_refused"
as_str rate_limited = codes "rate_limited"
as_str peer_mismatch = codes "peer_mismatch"
as_str peer_retired = codes "peer_retired"
as_str peer_unreachable = codes "peer_unreachable"
as_str file_drop_unavailable = codes "file_drop_unavailable"
as_str attachment_mismatch = codes "attachment_mismatch"
as_str io = codes "io"
