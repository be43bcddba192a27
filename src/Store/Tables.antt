-- ===== src/Store/Tables.antt =====
-- The tables of the store that carry mail, a record for a row. A column that holds an id, an
-- address, a policy or references is read as what it spells. Times are milliseconds of a clock that
-- stands after 1970, and a counter is a natural number.
use vvagent.Base.{ℕ, ◌+◌, ◌*◌, ◌^◌, ◌-◌, min, Bool, List, [], ◌∷◌, ◌++◌, Option, Text, codes, find}
use vvagent.Error.{Result, ErrorCode, MeshError, new, ok_or, not_found}
use vvagent.Address.Defs.{Address}
use vvagent.Identity.Opaque.{Opaque, opaque_eq}
use vvagent.Identity.RuntimeKind.{RuntimeKind}
use vvagent.Identity.AgentState.{AgentState}
use vvagent.Identity.PeerLabel.{PeerLabel}
use vvagent.Capability.Defs.{Capabilities}
use vvagent.Message.Kind.{Kind}
use vvagent.Message.Outcome.{Outcome}
use vvagent.Message.State.{State}
use vvagent.Message.Principal.{Principal}
use vvagent.Message.Ref.{Ref}
use vvagent.Policy.Defs.{Policy, Rule}

pub record EndpointRow : Type 0 where
  pub endpoint_id : Opaque
  pub incarnation_id : Option Opaque
  pub token_hash : Option Text
  pub alias : Option Text
  pub provider : Option Text
  pub runtime_kind : RuntimeKind
  pub runtime_instance_id : Opaque
  pub instance_name : Option Text
  pub address : Option Address
  pub online : Bool
  pub state : AgentState
  pub state_generation : ℕ
  pub next_sequence : ℕ
  pub pending_count : ℕ
  pub pending_bytes : ℕ
  pub policy : Option Policy
  pub capabilities : Option Capabilities
  pub created_at : ℕ

-- A row of `message`; the first fields are those of the code's `Message`.
pub record Message : Type 0 where
  pub message_id : Opaque
  pub to_endpoint : Opaque
  pub from_principal : Principal
  pub kind : Kind
  pub conversation_id : Opaque
  pub reply_to : Option Opaque
  pub outcome : Option Outcome
  pub recipient_sequence : ℕ
  pub state : State
  pub subject : Option Text
  pub text : Text
  pub refs : List Ref
  pub created_at : ℕ
  pub expires_at : Option ℕ
  pub failure : Option ErrorCode
  pub origin_message_id : Option Opaque
  pub bytes : ℕ
  pub claim_owner : Option Opaque
  pub claim_expires_at : Option ℕ
  pub activations : ℕ
  pub last_activated_at : Option ℕ
  pub group_send_id : Option Opaque

pub record IdempotencyRow : Type 0 where
  pub sender : Text
  pub key : Text
  pub digest : Text
  pub message_id : Opaque

pub record AuditRow : Type 0 where
  pub at_ms : ℕ
  pub message_id : Option Opaque
  pub endpoint_id : Option Opaque
  pub operation : Text
  pub from_state : Option Text
  pub to_state : Option Text
  pub rule : Option Rule
  pub bytes : ℕ
  pub result : Text

-- The window that a bridge was launched from.
pub record LeaseAnchor : Type 0 where
  pub runtime : RuntimeKind
  pub instance_name : Text
  pub window : ℕ

-- `lease` is the owner with the end of its lease: the two columns are set and cleared together.
pub record PeerRow : Type 0 where
  pub peer_id : Opaque
  pub label : Option PeerLabel
  pub host_id : Opaque
  pub trusted : Bool
  pub retired : Bool
  pub lease : Option (Opaque × ℕ)
  pub lease_anchor : Option LeaseAnchor

pub record ProxyRow : Type 0 where
  pub endpoint_id : Opaque
  pub peer_id : Opaque
  pub remote_endpoint_id : Opaque
  pub display : Option Text

-- What a peer said that a selector names on its host.
pub data Answer : Type 0 where
  names : Opaque → Option Text → Answer
  fails : MeshError → Answer

pub record ResolutionRow : Type 0 where
  pub request_id : ℕ
  pub peer_id : Opaque
  pub selector : Text
  pub created_at : ℕ
  pub answer : Option Answer

pub record AttachmentRow : Type 0 where
  pub sender : Text
  pub key : Text
  pub position : ℕ
  pub peer_id : Opaque
  pub sha256 : Text
  pub bytes : ℕ
  pub remote_path : Text
  pub created_at : ℕ

pub record MemberRow : Type 0 where
  pub name : Text
  pub endpoint_id : Opaque

pub record GroupSendRow : Type 0 where
  pub group_send_id : Opaque
  pub name : Text
  pub sender : Text
  pub members : List Opaque

pub record Store : Type 0 where
  pub endpoints : List EndpointRow
  pub messages : List Message
  pub idempotency : List IdempotencyRow
  pub audits : List AuditRow
  pub peers : List PeerRow
  pub proxies : List ProxyRow
  pub host_id : Opaque
  pub groups : List Text
  pub members : List MemberRow
  pub group_sends : List GroupSendRow
  pub resolutions : List ResolutionRow
  pub next_request_id : ℕ
  pub attachments : List AttachmentRow

pub record Caller : Type 0 where
  pub principal : Principal
  pub scope : Option Opaque

abbrev pub max_pending_count : ℕ
max_pending_count = 256

abbrev pub max_pending_bytes : ℕ
max_pending_bytes = 4 * 1024 * 1024

abbrev pub reserved_count : ℕ
reserved_count = 16

abbrev pub reserved_bytes : ℕ
reserved_bytes = 1024 * 1024

abbrev pub default_claim_lease_ms : ℕ
default_claim_lease_ms = 5 * 60 * 1000

-- `i64::saturating_add` of values that are not negative
abbrev pub saturating_add : ℕ → ℕ → ℕ
saturating_add a b = min (a + b) (2 ^ 63 - 1)

-- `audit`
abbrev pub audit : Store → AuditRow → Store
audit s row = record s { audits = s.audits ++ row ∷ [] }

abbrev pub is_message : Opaque → Message → Bool
is_message id m = opaque_eq m.message_id id

abbrev pub is_endpoint : Opaque → EndpointRow → Bool
is_endpoint id e = opaque_eq e.endpoint_id id

unfoldable pub load_message : Store → Opaque → Result Message
load_message s id =
    ok_or (find (is_message id) s.messages) (new not_found (codes "no such message"))

unfoldable pub find_endpoint : Store → Opaque → Option EndpointRow
find_endpoint s id = find (is_endpoint id) s.endpoints

unfoldable pub find_proxy : Store → Opaque → Option ProxyRow
find_proxy s id = find (λ x. opaque_eq x.endpoint_id id) s.proxies

unfoldable pub find_peer : Store → Opaque → Option PeerRow
find_peer s id = find (λ p. opaque_eq p.peer_id id) s.peers
