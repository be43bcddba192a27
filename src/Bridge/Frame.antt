-- ===== src/Bridge/Frame.antt =====
-- The frames of the protocol, their parts, and the bounds that `validate` checks.
use vvagent.Base.{
  ℕ, ◌-◌, Bool, true, false, not, ◌||◌, List, [], ◌∷◌, ◌++◌, Option, none, some, Text,
  if◌then◌else◌, codes, utf8, len, length, ltb, leb, any, keep, take, is_empty, is_some, is_none,
  is_some_and, is_control,
}
use vvagent.Base.Int.{ℤ}
use vvagent.Error.{
  ErrorCode, MeshError, new, with_candidates, max_ambiguous_candidates, Result, ok, err, ◌>>◌,
  refuse_if,
}
use vvagent.Address.Decimal.{decimal}
use vvagent.Identity.Opaque.{Opaque}
use vvagent.Message.Kind.{Kind, request, response, notice}
use vvagent.Message.Outcome.{Outcome}
use vvagent.Message.State.{State}
use vvagent.Message.Ref.{Ref, on_peer, validate_elsewhere}
use vvagent.Message.Draft.{max_text_bytes, max_subject_bytes, max_refs, lifetime_in_range}
use vvagent.Selector.Remote.{max_selector_bytes}

abbrev pub max_error_message_bytes : ℕ
max_error_message_bytes = 512

abbrev pub max_display_bytes : ℕ
max_display_bytes = 256

pub data RefHost : Type 0 where
  sender recipient : RefHost

pub record WireRef : Type 0 where
  pub on : RefHost
  pub reference : Ref

pub record WireError : Type 0 where
  pub code : ErrorCode
  pub message : Text
  pub candidates : List Text

pub record Deliver : Type 0 where
  pub origin_message_id : Opaque
  pub origin_endpoint_id : Opaque
  pub to_endpoint_id : Opaque
  pub kind : Kind
  pub reply_to_origin : Option Opaque
  pub outcome : Option Outcome
  pub subject : Option Text
  pub text : Text
  pub refs : List WireRef
  pub remaining_lifetime_ms : Option ℤ

pub data Frame : Type 0 where
  resolve : (request_id : ℕ) → (selector : Text) → Frame
  resolved : (request_id : ℕ) → (endpoint_id : Opaque) → (display : Option Text) → Frame
  unresolved : (request_id : ℕ) → WireError → Frame
  deliver : Deliver → Frame
  accepted : (origin_message_id : Opaque) → Frame
  refused : (origin_message_id : Opaque) → WireError → Frame
  cancel : (origin_message_id : Opaque) → Frame
  cancel_state : (origin_message_id : Opaque) → State → Frame
  ping : (nonce : ℕ) → Frame
  pong : (nonce : ℕ) → Frame

unfoldable pub bounded_text : Text → ℕ → Text → Result (Unit {0})
bounded_text value max what = do
  refuse_if (ltb max (len value))
      (what ++ (codes " is at most " ++ (decimal max ++ codes " bytes")))
  refuse_if (any is_control value) (what ++ codes " may not contain control characters")

-- The longest front of the text of at most so many bytes: `truncate` at the last char boundary.
unfoldable pub cut : ℕ → Text → Text
cut n [] = []
cut n (c ∷ s) =
    let rest = cut (n - length (utf8 c)) s in if leb (length (utf8 c)) n then c ∷ rest else []

abbrev pub is_ok : Result (Unit {0}) → Bool
is_ok (ok u) = true
is_ok (err e) = false

unfoldable pub clean_message : Text → Text
clean_message message =
    let kept = keep (λ c. not (is_control c)) message in
    if ltb max_error_message_bytes (len kept) then cut max_error_message_bytes kept else kept

-- `WireError::from_mesh`
unfoldable pub from_mesh : MeshError → WireError
unfolding clean_message
from_mesh e = record {
  code = e.code;
  message = clean_message e.message;
  candidates =
      keep (λ name. is_ok (bounded_text name max_display_bytes (codes "a candidate")))
        (take max_ambiguous_candidates e.candidates);
}

unfoldable pub bounded_candidates : List Text → Result (Unit {0})
bounded_candidates [] = ok tt
bounded_candidates (c ∷ cs) =
    bounded_text c max_display_bytes (codes "a candidate") >> bounded_candidates cs

-- `WireError::validate`
unfoldable pub validate_error : WireError → Result (Unit {0})
unfolding bounded_candidates
validate_error e = do
  bounded_text e.message max_error_message_bytes (codes "an error message")
  refuse_if (ltb max_ambiguous_candidates (length e.candidates)) (codes "at most 8 candidates")
  bounded_candidates e.candidates

-- `WireError::into_mesh`
unfoldable pub into_mesh : WireError → MeshError
into_mesh e = with_candidates (new e.code e.message) e.candidates

-- The match on the kind at the end of `Deliver::validate`.
unfoldable pub deliver_kind : Kind → Option Opaque → Option Outcome → Result (Unit {0})
deliver_kind response reply_to outcome =
    refuse_if (is_none reply_to || is_none outcome)
      (codes "a delivered response names the request it answers and carries an outcome")
deliver_kind request reply_to outcome =
    refuse_if (is_some reply_to || is_some outcome)
      (codes "only a delivered response answers a request or carries an outcome")
deliver_kind notice reply_to outcome =
    refuse_if (is_some reply_to || is_some outcome)
      (codes "only a delivered response answers a request or carries an outcome")

module _ (is_absolute : Text → Bool) where
  -- `WireRef::validate`
  unfoldable pub validate_ref : WireRef → Result (Unit {0})
  validate_ref r = do
    refuse_if (on_peer is_absolute r.reference)
        (codes "a reference on the wire says which end it is about with `on`, not `host`")
    validate_elsewhere is_absolute r.reference

  unfoldable pub validate_refs : List WireRef → Result (Unit {0})
  unfolding validate_ref
  validate_refs [] = ok tt
  validate_refs (r ∷ rs) = validate_ref r >> validate_refs rs

  -- `Deliver::validate`
  unfoldable pub validate_deliver : Deliver → Result (Unit {0})
  unfolding validate_refs deliver_kind
  validate_deliver d = do
    refuse_if (ltb max_text_bytes (len d.text)) (codes "message text is over the 32768-byte limit")
    refuse_if (is_some_and d.subject (λ s. ltb max_subject_bytes (len s)))
        (codes "subject is over the 256-byte limit")
    refuse_if (ltb max_refs (length d.refs)) (codes "more than 16 references")
    validate_refs d.refs
    refuse_if (is_some_and d.remaining_lifetime_ms (λ t. not (lifetime_in_range t)))
        (codes "a remaining lifetime is 1..=604800000 ms")
    deliver_kind d.kind d.reply_to_origin d.outcome

  -- `Frame::validate`
  unfoldable pub validate : Frame → Result (Unit {0})
  unfolding validate_error validate_deliver
  validate (resolve n selector) = do
    refuse_if (is_empty selector) (codes "a selector is not empty")
    bounded_text selector max_selector_bytes (codes "a selector")
  validate (resolved n id (some display)) =
      bounded_text display max_display_bytes (codes "a display name")
  validate (resolved n id none) = ok tt
  validate (unresolved n e) = validate_error e
  validate (refused id e) = validate_error e
  validate (deliver d) = validate_deliver d
  validate (accepted id) = ok tt
  validate (cancel id) = ok tt
  validate (cancel_state id s) = ok tt
  validate (ping n) = ok tt
  validate (pong n) = ok tt
