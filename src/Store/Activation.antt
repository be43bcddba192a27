-- ===== src/Store/Activation.antt =====
-- `activatable`, `record_activation` and the budgets of wake-ups.
use vvagent.Base.{
  ℕ, ◌+◌, Bool, true, false, not, ◌&&◌, List, [], ◌∷◌, Option, none, some, Text, codes,
  if◌then◌else◌, keep, any, find, is_some_and, option_eq, text_eq, ltb, leb, length,
}
use vvagent.Error.{Result, ok, err, ◌>>=◌}
use vvagent.Capability.Defs.{Capabilities, delivery_mode}
use vvagent.Capability.Mode
use vvagent.Capability.Mode.{DeliveryMode, activates}
use vvagent.Identity.Opaque.{Opaque, opaque_eq}
use vvagent.Message.Principal.{Principal}
use vvagent.Message.PrincipalKind.{is_peer}
use vvagent.Policy.Defs.{Gate, Decision, Rule, evaluate}
use vvagent.Store.Tables.{
  Store, Message, AuditRow, audit, load_message, is_message, find_endpoint, find_proxy,
}
use vvagent.Store.Rows.{update}
use vvagent.Store.Queries.{message_decision, peer_trusted, scope_of, address_of}
use vvagent.Store.Receive.{is_queued, in_date, by_sequence}
use vvagent.Store.Directory.{policy, capabilities, endpoint}

pub record Activatable : Type 0 where
  pub message : Message
  pub endpoint_id : Opaque
  pub capabilities : Capabilities
  pub mode : DeliveryMode
  pub decision : Decision

-- The recipient runs in this instance and is online.
abbrev pub awake_in : Store → Opaque → Opaque → Bool
awake_in s scope id =
    is_some_and (find_endpoint s id) (λ e. opaque_eq e.runtime_instance_id scope && e.online)

-- `m.activations < max AND (m.last_activated_at IS NULL OR m.last_activated_at <= now - backoff)`
abbrev pub rested : ℕ → ℕ → ℕ → Message → Bool
rested now backoff_ms max_attempts m =
    ltb m.activations max_attempts
    && (elim m.last_activated_at [ none ↦ true | some t ↦ leb (t + backoff_ms) now ])

abbrev pub wakeable : Store → Opaque → ℕ → ℕ → ℕ → Message → Bool
wakeable s scope now backoff_ms max_attempts m =
    awake_in s scope m.to_endpoint
    && is_queued m.state
    && in_date now m
    && rested now backoff_ms max_attempts m

-- The message names a request that this endpoint sent.
abbrev pub answers_us : Store → Message → Opaque → Bool
answers_us s m id = is_some_and m.reply_to (λ asked. elim (load_message s asked) [
  | err e ↦ false
  | ok r ↦ option_eq opaque_eq r.from_principal.endpoint_id (some id)
])

unfoldable pub activate_decision : Store → Opaque → Message → Decision
unfolding policy
activate_decision s scope m = evaluate (policy s m.to_endpoint) Gate.activate (record {
  sender = m.from_principal;
  sender_scope = scope_of s m.from_principal.endpoint_id;
  target_scope = scope;
  is_reply_to_our_request = answers_us s m m.to_endpoint;
  sender_address = address_of s m.from_principal.endpoint_id;
  target_address = address_of s (some m.to_endpoint);
  peer_trusted = peer_trusted s m.from_principal;
})

-- One round of the loop over the candidates.
unfoldable pub wake : Store → Opaque → Message → Result (Option Activatable)
unfolding activate_decision capabilities endpoint
wake s scope m = endpoint s m.to_endpoint >>= λ e.
    if not (activates (delivery_mode (capabilities s m.to_endpoint)))
    then ok none
    else message_decision s m Gate.make_visible >>= λ visibility. ok (
        some (record {
          message = m;
          endpoint_id = m.to_endpoint;
          capabilities = capabilities s m.to_endpoint;
          mode = delivery_mode (capabilities s m.to_endpoint);
          decision = if visibility.allowed then activate_decision s scope m else visibility;
        }))

abbrev pub add_some {ℓ} : {A : Type ℓ} → Option A → List A → List A
add_some none xs = xs
add_some (some x) xs = x ∷ xs

unfoldable pub wake_each : Store → Opaque → List Message → Result (List Activatable)
unfolding wake
wake_each s scope [] = ok []
wake_each s scope (m ∷ ms) =
    wake s scope m >>= λ found. wake_each s scope ms >>= λ others. ok (add_some found others)

unfoldable pub activatable : Store → Opaque → ℕ → ℕ → ℕ → Result (List Activatable)
unfolding wake_each
activatable s scope now backoff_ms max_attempts =
    wake_each s scope (by_sequence (keep (wakeable s scope now backoff_ms max_attempts) s.messages))

abbrev pub attempt : ℕ → Message → Message
attempt now m = record m { activations = m.activations + 1; last_activated_at = some now }

abbrev pub activate_audit : ℕ → Opaque → Opaque → DeliveryMode → Rule → Text → AuditRow
activate_audit now id endpoint mode rule outcome = record {
  at_ms = now;
  message_id = some id;
  endpoint_id = some endpoint;
  operation = codes "activate";
  from_state = some (Mode.as_str mode);
  to_state = none;
  rule = some rule;
  bytes = 0;
  result = outcome;
}

unfoldable pub record_activation : Store → ℕ → Opaque → Opaque → DeliveryMode → Rule → Text → Store
record_activation s now id endpoint mode rule outcome =
    audit (record s { messages = update (is_message id) (attempt now) s.messages })
      (activate_audit now id endpoint mode rule outcome)

-- `operation=?2 AND result=?3 AND at_ms > now - 60_000`
abbrev pub recorded_since : ℕ → Text → Text → AuditRow → Bool
recorded_since now operation outcome a =
    text_eq a.operation operation && text_eq a.result outcome && ltb now (a.at_ms + 60000)

unfoldable pub recent : Store → Opaque → Text → Text → ℕ → ℕ
recent s id operation outcome now = length (
    keep
      (λ a. option_eq opaque_eq a.endpoint_id (some id) && recorded_since now operation outcome a)
      s.audits)

unfoldable pub activation_budget_left : Store → Opaque → ℕ → Bool
unfolding recent
activation_budget_left s id now =
    ltb (recent s id (codes "activate") (codes "started") now)
      (policy s id).max_auto_turns_per_minute

abbrev pub peer_max_auto_turns_per_minute : ℕ
peer_max_auto_turns_per_minute = 4

-- The audit row is of a message that a proxy of this peer sent.
abbrev pub about_peer : Store → Opaque → AuditRow → Bool
about_peer s peer_id a = is_some_and a.message_id (λ id.
    is_some_and (find (is_message id) s.messages) (λ m.
      is_some_and m.from_principal.endpoint_id
        (λ from. any (λ x. opaque_eq x.peer_id peer_id && opaque_eq x.endpoint_id from) s.proxies)))

unfoldable pub peer_activation_budget_left : Store → Principal → ℕ → Bool
peer_activation_budget_left s sender now =
    if not (is_peer sender.kind) then true else elim sender.endpoint_id [
      | none ↦ true
      | some id ↦ elim (find_proxy s id) [
        | none ↦ true
        | some x ↦
            ltb
              (length (
                keep
                  (λ a.
                    about_peer s x.peer_id a
                    && recorded_since now (codes "activate") (codes "started") a)
                  s.audits))
              peer_max_auto_turns_per_minute
      ]
    ]
