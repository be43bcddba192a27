-- ===== src/Store/Examples/Claims.antt =====
-- The worker claims the request that waits in its mailbox.
use vvagent.Base.{◌≡◌, refl, true, none, some, text_eq, len, bytes, utf8, In, here}
use vvagent.Error.{ok}
use vvagent.Identity.Opaque.{Opaque, opaque_eq}
use vvagent.Identity.RuntimeKind.{kind_eq}
use vvagent.Message.PrincipalKind.{is_peer, is_local_user}
use vvagent.Message.Draft
use vvagent.Message.Draft.{
  Draft, digest, digest_fields, charged_bytes, validate_refs, validate_kind, fields, field,
  be_bytes,
}
use vvagent.Policy.Defs.{default, evaluate, evaluate_admit, evaluate_local, by_admit}
use vvagent.Store.Tables.{Message, load_message, find_endpoint, saturating_add}
use vvagent.Store.Queries.{
  agent_identity, require_current_incarnation, require_peer_authority, principal_key,
  message_decision, answers_own_request, peer_trusted, recount,
}
use vvagent.Store.Send.{send_as, deliver, admit, insert, inserted}
use vvagent.Store.Admission.{
  prior_send, routable, is_reply, enqueue_decision, over_rate, over_quota,
}
use vvagent.Store.Receive.{
  claim_as, claim_from, take_candidate, apply_claim, first_visible, by_sequence, insert_by_sequence,
  reclaim, take_claim,
}
use vvagent.Store.Claiming.{Visible}
use vvagent.Store.Progress.{claim_as_progress}
use vvagent.Store.Receive.{claimable}
use vvagent.Policy.Defs.{Rule}
use vvagent.Store.Examples.{id, worker, mailbox, mailbox-Unique, waiting}

abbrev pub taken : Message
taken = take_claim (id 2) (saturating_add 6 300000) waiting

worker-live :
    (agent_identity worker ≡ ok (id 1, id 2))
    × (require_current_incarnation mailbox (id 1) (id 2) ≡ ok tt)
    × (require_peer_authority mailbox 6 worker ≡ ok tt)
unfolding claim_as claim_from take_candidate apply_claim first_visible by_sequence
    insert_by_sequence reclaim agent_identity require_current_incarnation message_decision
    answers_own_request recount load_message send_as Draft.validate require_peer_authority deliver
    admit insert inserted len bytes utf8 is_peer prior_send find_endpoint opaque_eq text_eq routable
    kind_eq is_reply enqueue_decision evaluate evaluate_admit evaluate_local by_admit is_local_user
    default over_rate over_quota charged_bytes validate_refs validate_kind peer_trusted
    principal_key
worker-live = (refl, refl, refl)

waiting-In : In waiting (reclaim 6 mailbox).messages
unfolding claim_as claim_from take_candidate apply_claim first_visible by_sequence
    insert_by_sequence reclaim agent_identity require_current_incarnation message_decision
    answers_own_request recount load_message send_as Draft.validate require_peer_authority deliver
    admit insert inserted len bytes utf8 is_peer prior_send find_endpoint opaque_eq text_eq routable
    kind_eq is_reply enqueue_decision evaluate evaluate_admit evaluate_local by_admit is_local_user
    default over_rate over_quota charged_bytes validate_refs validate_kind peer_trusted
    principal_key
waiting-In = here

waiting-Visible : Visible (reclaim 6 mailbox) waiting
unfolding claim_as claim_from take_candidate apply_claim first_visible by_sequence
    insert_by_sequence reclaim agent_identity require_current_incarnation message_decision
    answers_own_request recount load_message send_as Draft.validate require_peer_authority deliver
    admit insert inserted len bytes utf8 is_peer prior_send find_endpoint opaque_eq text_eq routable
    kind_eq is_reply enqueue_decision evaluate evaluate_admit evaluate_local by_admit is_local_user
    default over_rate over_quota charged_bytes validate_refs validate_kind peer_trusted
    principal_key
waiting-Visible = (record { rule = Rule.anyone; allowed = true }, refl, refl)

waiting-claimable : claimable 6 (id 1) waiting ≡ true
unfolding opaque_eq text_eq
waiting-claimable = refl

claim_as_progress_example : (m : Message) × ((claim_as mailbox 6 worker none true).0 ≡ ok (some m))
claim_as_progress_example =
    claim_as_progress mailbox 6 worker none true (id 1) (id 2) waiting mailbox-Unique worker-live.0
      worker-live.1 worker-live.2 waiting-In waiting-claimable waiting-Visible
