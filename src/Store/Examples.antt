-- ===== src/Store/Examples.antt =====
-- A store with one agent: a request is sent to it, and sent again under its key. The children go on
-- from there.
mod Claims
mod Waking
mod Sessions
mod Hosts
mod Redelivery
use vvagent.Base.{
  ℕ, ◌+◌, ◌%◌, ◌≤◌, ◌≡◌, ◌≢◌, refl, sym, ◌∙◌, ◌⊎◌, inl, inr, Bool, true, List, [], ◌∷◌, ◌++◌,
  Option, none, some, arith, Text, codes, text_eq, len, bytes, utf8, In, here, In-cons, In-nil,
}
use vvagent.Error.{ok}
use vvagent.Identity.Opaque
use vvagent.Identity.Opaque.{Opaque, opaque_eq, hex, hex_digit}
use vvagent.Identity.AgentState.{unknown}
use vvagent.Identity.RuntimeKind.{vvmux, kind_eq}
use vvagent.Message.Kind
use vvagent.Message.Kind.{Kind, request, may_use_reserve}
use vvagent.Message.Outcome.{completed}
use vvagent.Message.State.{queued}
use vvagent.Message.Ref.{Ref}
use vvagent.Message.PrincipalKind.{agent, local_user, is_peer, is_local_user}
use vvagent.Message.Draft
use vvagent.Message.Draft.{
  Draft, digest, digest_fields, charged_bytes, validate_refs, validate_kind, fields, field,
  be_bytes,
}
use vvagent.Policy.Defs.{default, evaluate, evaluate_admit, evaluate_local, by_admit}
use vvagent.Store.Tables.{
  Store, EndpointRow, Message, Caller, load_message, find_endpoint, saturating_add,
}
use vvagent.Store.Queries.{
  agent_identity, require_current_incarnation, require_peer_authority, principal_key,
  message_decision, answers_own_request, peer_trusted, recount,
}
use vvagent.Store.Send.{send_as, deliver, admit, insert, inserted}
use vvagent.Store.Admission.{
  prior_send, routable, is_reply, enqueue_decision, over_rate, over_quota, new_message, count_cap,
  byte_cap,
}
use vvagent.Store.Receive.{
  claim_as, claim_from, take_candidate, apply_claim, first_visible, by_sequence, insert_by_sequence,
  reclaim, take_claim, claim_lease,
}
use vvagent.Store.Ending.{cancel, sweep}
use vvagent.Store.Respond.{respond, confirm_interrupt}
use vvagent.Store.Counting.{Counted}
use vvagent.Store.Accounting.{send_as-Counted}
use vvagent.Store.Settling.{Unique, cancel-Counted}
use vvagent.Store.Sweeping.{sweep-Counted}
use vvagent.Store.Claiming.{settled}
use vvagent.Store.Claiming.{Visible}
use vvagent.Store.Progress.{claim_as_progress}
use vvagent.Store.Receive.{claimable}
use vvagent.Policy.Defs.{Rule}
use vvagent.Store.Claims.{Oldest, claim_as-Counted}
use vvagent.Store.Known.{Conflicts}
use vvagent.Store.Replay.{send_as-repeated, send_as-reused}
use vvagent.Store.Capacity.{Fits, Keyed, send_as-appends, send_as-capped}
use vvagent.Store.Retiring.{confirm_interrupt-Counted}
use vvagent.Store.Responding.{respond-Counted, send_as-Unique}
use vvagent.Store.Reachable.{sends, sweeps, stays, goes, Steps-Counted}

abbrev pub id : ℕ → Opaque
id n = record { chars = n ∷ [] }

abbrev pub worker_row : EndpointRow
worker_row = record {
  endpoint_id = id 1;
  incarnation_id = some (id 2);
  token_hash = none;
  alias = none;
  provider = none;
  runtime_kind = vvmux;
  runtime_instance_id = id 3;
  instance_name = none;
  address = none;
  online = true;
  state = unknown;
  state_generation = 1;
  next_sequence = 1;
  pending_count = 0;
  pending_bytes = 0;
  policy = none;
  capabilities = none;
  created_at = 0;
}

abbrev pub empty : Store
empty = record {
  endpoints = worker_row ∷ [];
  messages = [];
  idempotency = [];
  audits = [];
  peers = [];
  proxies = [];
  host_id = id 9;
  groups = [];
  members = [];
  group_sends = [];
  resolutions = [];
  next_request_id = 1;
  attachments = [];
}

abbrev pub operator : Caller
operator = record {
  principal = record { kind = local_user; endpoint_id = none; incarnation_id = none };
  scope = none;
}

abbrev pub worker : Caller
worker = record {
  principal = record { kind = agent; endpoint_id = some (id 1); incarnation_id = some (id 2) };
  scope = some (id 3);
}

abbrev pub absolute : Text → Bool
absolute path = true

abbrev pub json : List Ref → Option Text
json refs = some []

abbrev sum : List ℕ → ℕ
sum [] = 0
sum (b ∷ bs) = b + sum bs

abbrev pub checksum : List ℕ → List ℕ
checksum bs = sum bs % 256 ∷ []

abbrev pub task : Text → Draft
task text = record {
  to = id 1;
  kind = request;
  reply_to = none;
  outcome = none;
  subject = none;
  text = text;
  refs = [];
  idempotency_key = b'k' ∷ [];
  expires_in_ms = none;
}

abbrev pub first_task : Draft
first_task = task (b'a' ∷ [])

abbrev second_task : Draft
second_task = task (b'b' ∷ [])

empty-Counted : Counted empty
empty-Counted e i = elim (In-cons i) [ inl q ↦ ground arith | inr j ↦ absurd (In-nil j) ]

empty-Unique : Unique empty
empty-Unique m n i j q = absurd (In-nil i)

pub empty-Keyed : Keyed empty
empty-Keyed e f i j q = elim (In-cons i) [
  | inr k ↦ absurd (In-nil k)
  | inl a ↦ elim (In-cons j) [ inl b ↦ a ∙ sym b | inr k ↦ absurd (In-nil k) ]
]

abbrev pub mailbox : Store
mailbox = (send_as absolute json checksum 5 (id 7) (id 8) operator first_task none empty).1

abbrev pub waiting : Message
waiting = new_message empty 5 (id 7) (id 8) operator first_task none 1 1

sent :
    send_as absolute json checksum 5 (id 7) (id 8) operator first_task none empty
    ≡ (ok waiting, mailbox)
unfolding send_as Draft.validate require_peer_authority deliver admit insert inserted len bytes utf8
    is_peer prior_send find_endpoint opaque_eq text_eq routable kind_eq is_reply enqueue_decision
    evaluate evaluate_admit evaluate_local by_admit is_local_user default over_rate over_quota
    charged_bytes validate_refs validate_kind peer_trusted principal_key
sent = refl

mailbox-Counted : Counted mailbox
mailbox-Counted =
    send_as-Counted absolute json checksum 5 (id 7) (id 8) operator first_task none empty
      empty-Counted

pub mailbox-Unique : Unique mailbox
mailbox-Unique =
    send_as-Unique absolute json checksum 5 (id 7) (id 8) operator first_task none empty
      empty-Unique

operator-may : require_peer_authority mailbox 9 operator ≡ ok tt
unfolding require_peer_authority is_peer
operator-may = refl

send_as-repeated_example :
    send_as absolute json checksum 9 (id 17) (id 18) operator first_task none mailbox
    ≡ (ok waiting, mailbox)
send_as-repeated_example =
    send_as-repeated absolute json checksum operator first_task 5 (id 7) (id 8) none empty mailbox
      waiting 9 (id 17) (id 18) none sent operator-may

digests-differ : digest json checksum second_task ≢ digest json checksum first_task
unfolding digest digest_fields fields field be_bytes hex hex_digit bytes utf8 Opaque.as_str
    Kind.as_str codes
digests-differ e = ground arith

second-valid : Draft.validate absolute second_task ≡ ok tt
unfolding Draft.validate len bytes utf8
second-valid = refl

send_as-reused_example :
    Conflicts absolute json checksum 9
      (id 17)
      (id 18)
      operator
      second_task
      none
      mailbox
      (send_as absolute json checksum 9 (id 17) (id 18) operator second_task none mailbox)
send_as-reused_example =
    send_as-reused absolute json checksum operator first_task second_task 5 (id 7) (id 8) none empty
      mailbox waiting 9 (id 17) (id 18) none sent refl digests-differ second-valid operator-may

send_as-appends_example :
    (mailbox.messages ≡ empty.messages)
    ⊎ ((m : Message) × ((send_as absolute json checksum 5
            (id 7)
            (id 8)
            operator
            first_task
            none
            empty).0
          ≡ ok m)
        × (mailbox.messages ≡ empty.messages ++ m ∷ [])
        × (m.state ≡ queued)
        × (m.to_endpoint ≡ id 1)
        × (m.kind ≡ request)
        × (m.text ≡ first_task.text)
        × (m.from_principal ≡ operator.principal))
send_as-appends_example =
    send_as-appends absolute json checksum 5 (id 7) (id 8) operator first_task none empty

abbrev charged_row : EndpointRow
charged_row = record worker_row { next_sequence = 2; pending_count = 1; pending_bytes = 1 }

charged_row-In : In charged_row mailbox.endpoints
unfolding send_as Draft.validate require_peer_authority deliver admit insert inserted len bytes utf8
    is_peer prior_send find_endpoint opaque_eq text_eq routable kind_eq is_reply enqueue_decision
    evaluate evaluate_admit evaluate_local by_admit is_local_user default over_rate over_quota
    charged_bytes validate_refs validate_kind peer_trusted principal_key
charged_row-In = here

send_as-capped_example : In charged_row empty.endpoints ⊎ ((id 1 ≡ id 1) × Fits request charged_row)
send_as-capped_example =
    send_as-capped absolute json checksum 5 (id 7) (id 8) operator first_task none empty charged_row
      empty-Keyed charged_row-In

Steps-Counted_example : Unique (sweep 6 mailbox).1 × Counted (sweep 6 mailbox).1
Steps-Counted_example =
    Steps-Counted absolute json checksum
      (goes (sends 5 (id 7) (id 8) operator first_task none) (goes (sweeps 6) stays)) empty-Unique
      empty-Counted
