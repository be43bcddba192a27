-- ===== src/Store/Receive.antt =====
-- `claim` and `claim_outbound`, which take a message for its recipient in one transaction.
use vvagent.Base.{
  ℕ, max, Bool, true, false, not, ◌&&◌, List, [], ◌∷◌, Option, none, some, codes, if◌then◌else◌,
  is_some_and, ltb, leb, keep,
}
use vvagent.Base.Int.{ℤ, pos_part}
use vvagent.Error.{Result, ok, err, ◌>>=◌, ◌>>◌, new, not_authorized}
use vvagent.Identity.Opaque.{Opaque, opaque_eq}
use vvagent.Message.Kind.{Kind, notice}
use vvagent.Message.State
use vvagent.Message.State.{State, queued, claimed, consumed}
use vvagent.Message.PrincipalKind.{is_peer}
use vvagent.Policy.Defs.{Gate, Rule}
use vvagent.Store.Tables.{
  Store, Message, AuditRow, Caller, audit, load_message, is_message, default_claim_lease_ms,
  saturating_add,
}
use vvagent.Store.Queries.{
  agent_identity, require_current_incarnation, require_peer_authority, message_decision, recount,
}
use vvagent.Store.Rows.{update}

abbrev pub is_claimed : State → Bool
is_claimed claimed = true
is_claimed _ = false

abbrev pub is_queued : State → Bool
is_queued queued = true
is_queued _ = false

abbrev pub is_notice : Kind → Bool
is_notice notice = true
is_notice _ = false

-- `SET state=..., claim_owner=NULL, claim_expires_at=NULL`
abbrev pub release : State → Message → Message
release state m = record m { state = state; claim_owner = none; claim_expires_at = none }

abbrev pub set_state : State → Message → Message
set_state state m = record m { state = state }

-- `state='claimed' AND claim_expires_at <= now`
abbrev pub lapsed : ℕ → Message → Bool
lapsed now m = is_claimed m.state && is_some_and m.claim_expires_at (λ t. leb t now)

unfoldable pub reclaim : ℕ → Store → Store
reclaim now s = record s { messages = update (lapsed now) (release queued) s.messages }

abbrev pub in_date : ℕ → Message → Bool
in_date now m = elim m.expires_at [ none ↦ true | some t ↦ ltb now t ]

-- Queued for this endpoint and not past its deadline.
abbrev pub claimable : ℕ → Opaque → Message → Bool
claimable now id m = opaque_eq m.to_endpoint id && is_queued m.state && in_date now m

-- `ORDER BY recipient_sequence`
unfoldable pub insert_by_sequence : Message → List Message → List Message
insert_by_sequence m [] = m ∷ []
insert_by_sequence m (n ∷ ns) =
    let rest = insert_by_sequence m ns in
    if leb m.recipient_sequence n.recipient_sequence then m ∷ n ∷ ns else n ∷ rest

unfoldable pub by_sequence : List Message → List Message
unfolding insert_by_sequence
by_sequence [] = []
by_sequence (m ∷ ms) = insert_by_sequence m (by_sequence ms)

-- The first candidate that its recipient's policy makes visible, with the rule.
unfoldable pub first_visible : Store → List Message → Result (Option (Message × Rule))
first_visible s [] = ok none
first_visible s (m ∷ ms) =
    let rest = first_visible s ms in
    message_decision s m Gate.make_visible >>= λ decision.
    if decision.allowed then ok (some (m, decision.rule)) else rest

abbrev pub claim_lease : Option ℤ → ℕ
claim_lease lease_ms = max 1 (elim lease_ms [ none ↦ default_claim_lease_ms | some t ↦ pos_part t ])

abbrev pub take_claim : Opaque → ℕ → Message → Message
take_claim owner expires_at m = record m {
  state = claimed;
  claim_owner = some owner;
  claim_expires_at = some expires_at;
}

abbrev pub claim_audit : ℕ → Opaque → Opaque → State → Rule → AuditRow
claim_audit now id endpoint state rule = record {
  at_ms = now;
  message_id = some id;
  endpoint_id = some endpoint;
  operation = codes "claim";
  from_state = some (State.as_str queued);
  to_state = some (State.as_str state);
  rule = some rule;
  bytes = 0;
  result = codes "ok";
}

-- The updates of a claim; a notice that is consumed at once releases its mailbox charge.
unfoldable pub apply_claim : ℕ → Opaque → Opaque → ℕ → Bool → Message → Rule → Store → Store
apply_claim now endpoint incarnation lease consumes m rule s =
    let held = record s {
      messages =
          update (is_message m.message_id) (take_claim incarnation (saturating_add now lease))
            s.messages;
    } in
    if consumes && is_notice m.kind
    then audit
        (recount endpoint (record held {
          messages = update (is_message m.message_id) (release consumed) held.messages;
        }))
        (claim_audit now m.message_id endpoint consumed rule)
    else audit held (claim_audit now m.message_id endpoint claimed rule)

unfoldable pub take_candidate :
    ℕ
    → Opaque
    → Opaque
    → ℕ
    → Bool
    → Store
    → Option (Message × Rule)
    → Result (Option Message) × Store
unfolding apply_claim
take_candidate now endpoint incarnation lease consumes s none = (ok none, s)
take_candidate now endpoint incarnation lease consumes s (some (m, rule)) =
    let after = apply_claim now endpoint incarnation lease consumes m rule s in
    (load_message after m.message_id >>= λ taken. ok (some taken), after)

unfoldable pub claim_from : ℕ → Opaque → Opaque → ℕ → Bool → Store → Result (Option Message) × Store
unfolding take_candidate
claim_from now endpoint incarnation lease consumes s =
    elim (first_visible s (by_sequence (keep (claimable now endpoint) s.messages))) [
      | err e ↦ (err e, s)
      | ok found ↦ take_candidate now endpoint incarnation lease consumes s found
    ]

-- Commits what succeeded, and drops the transaction otherwise.
abbrev pub finish_tx {ℓ} : {A : Type ℓ} → Store → Result A × Store → Result A × Store
finish_tx s (err e, after) = (err e, s)
finish_tx s (ok a, after) = (ok a, after)

-- An error drops the transaction, and the reclaiming with it.
unfoldable pub claim_as : Store → ℕ → Caller → Option ℤ → Bool → Result (Option Message) × Store
unfolding claim_from reclaim
claim_as s now c lease_ms consumes =
    elim (agent_identity c >>= λ who.
    require_current_incarnation s who.0 who.1 >> (require_peer_authority s now c >> ok who)) [
      | err e ↦ (err e, s)
      | ok (endpoint, incarnation) ↦
          finish_tx s
            (claim_from now endpoint incarnation (claim_lease lease_ms) consumes (reclaim now s))
    ]

unfoldable pub claim : Store → ℕ → Caller → Option ℤ → Result (Option Message) × Store
unfolding claim_as
claim s now c lease_ms = claim_as s now c lease_ms true

unfoldable pub claim_outbound : Store → ℕ → Caller → Result (Option Message) × Store
unfolding claim_as
claim_outbound s now c =
    if not (is_peer c.principal.kind)
    then (
      err (new not_authorized (codes "only a peer's bridge takes mail off a proxy's outbox")),
      s,
    )
    else claim_as s now c none false
