-- ===== src/Store/Inbox.antt =====
-- What a recipient and a sender read: `inbox`, `response_for` and `interrupt_target`.
use vvagent.Base.{
  ℕ, Bool, true, false, not, ◌&&◌, ◌||◌, List, [], ◌∷◌, Option, none, some, if◌then◌else◌, keep,
  any, head?, take, is_empty, option_eq, text_eq,
}
use vvagent.Error.{Result, ok, ◌>>=◌}
use vvagent.Identity.Opaque.{Opaque, opaque_eq}
use vvagent.Message.Kind.{response}
use vvagent.Message.State
use vvagent.Message.State.{State, claimed, delivered, cancellation_requested}
use vvagent.Policy.Defs.{Gate}
use vvagent.Store.Tables.{Store, Message, load_message, find_endpoint}
use vvagent.Store.Queries.{message_decision}
use vvagent.Store.Receive.{by_sequence}
use vvagent.Store.Admission.{is_request}

abbrev pub state_eq : State → State → Bool
state_eq a b = text_eq (State.as_str a) (State.as_str b)

-- `states.is_empty() || states.contains(&message.state)`
abbrev pub in_states : List State → Message → Bool
in_states states m = is_empty states || any (state_eq m.state) states

-- The loop over the rows.
unfoldable pub visible : Store → List State → List Message → Result (List Message)
visible s states [] = ok []
visible s states (m ∷ ms) =
    let rest = visible s states ms in
    if not (in_states states m)
    then rest
    else message_decision s m Gate.make_visible >>= λ decision.
        rest >>= λ others. ok (if decision.allowed then m ∷ others else others)

unfoldable pub inbox : Store → Opaque → List State → ℕ → Result (List Message)
unfolding visible
inbox s id states limit =
    visible s states (take limit (by_sequence (keep (λ m. opaque_eq m.to_endpoint id) s.messages)))

-- `reply_to=?1 AND kind='response'`
abbrev pub answers : Opaque → Message → Bool
answers id m =
    option_eq opaque_eq m.reply_to (some id) && (elim m.kind [ response ↦ true | _ ↦ false ])

unfoldable pub response_for : Store → Opaque → Result (Option Message)
response_for s id = elim (head? (by_sequence (keep (answers id) s.messages))) [
  | none ↦ ok none
  | some m ↦ message_decision s m Gate.make_visible >>= λ decision.
      ok (if decision.allowed then some m else none)
]

-- `state IN ('claimed','delivered','cancellation_requested')`
abbrev pub in_hand : State → Bool
in_hand claimed = true
in_hand delivered = true
in_hand cancellation_requested = true
in_hand _ = false

-- Another message is in flight at the same endpoint.
abbrev pub has_other : Store → Message → Bool
has_other s m =
    any
      (λ n.
        opaque_eq n.to_endpoint m.to_endpoint
        && not (opaque_eq n.message_id m.message_id)
        && in_hand n.state)
      s.messages

-- The incarnation that alone holds this request, online, if its policy lets it be stopped.
unfoldable pub sole_holder : Store → Message → Option Opaque
sole_holder s m = elim (find_endpoint s m.to_endpoint) [
  | none ↦ none
  | some e ↦ elim e.incarnation_id [
    | none ↦ none
    | some incarnation ↦
        if e.online && option_eq opaque_eq m.claim_owner (some incarnation) && not (has_other s m)
        then some incarnation
        else none
  ]
]

abbrev pub is_stopping : State → Bool
is_stopping cancellation_requested = true
is_stopping _ = false

unfoldable pub interrupt_target : Store → Opaque → Result (Option Opaque)
unfolding sole_holder
interrupt_target s id = load_message s id >>= λ m.
    if not (is_request m.kind) || not (is_stopping m.state)
    then ok none
    else message_decision s m Gate.interrupt >>= λ decision.
        ok (if decision.allowed then sole_holder s m else none)
