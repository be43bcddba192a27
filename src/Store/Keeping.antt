-- ===== src/Store/Keeping.antt =====
-- agent-mesh-store/src/lib.rs: message ids under each operation.
use vvagent.Base.{
  ℕ, refl, inl, inr, Bool, not, ◌&&◌, List, [], ◌∷◌, Option, none, some, Text, ltb, Bool-cases,
}
use vvagent.Base.Int.{ℤ}
use vvagent.Error.{ok, err, ◌>>=◌, ◌>>◌}
use vvagent.Identity.Opaque.{Opaque}
use vvagent.Message.Outcome.{Outcome}
use vvagent.Message.State.{consumed, cancelled, cancellation_requested, expired}
use vvagent.Message.Ref.{Ref}
use vvagent.Policy.Defs.{Rule}
use vvagent.Store.Tables.{
  Store, Message, Caller, load_message, is_message, saturating_add, is_endpoint,
}
use vvagent.Store.Rows.{update, changed}
use vvagent.Store.Queries.{
  recount, agent_identity, require_current_incarnation, require_peer_authority,
}
use vvagent.Store.Send.{send_as}
use vvagent.Store.Receive.{
  claim_as, claim_from, take_candidate, apply_claim, first_visible, by_sequence, claim_lease,
  reclaim, take_claim, release, set_state, is_notice,
}
use vvagent.Store.Ending.{
  cancel, apply_cancel, may_cancel, is_sender, is_queued_message, is_running_message, sweep,
  overdue, recount_each, is_expired,
}
use vvagent.Store.Respond.{
  respond, answerable, response_draft, retire_request, is_open, discharge, confirm_interrupt,
  apply_confirm, confirmable, confirm,
}
use vvagent.Store.Branches.{After, on_if, on_result, on_finish}
use vvagent.Store.Settling.{Unique, update-Unique}
use vvagent.Store.Claims.{reclaim-Unique}
use vvagent.Store.Responding.{send_as-Unique}

recount-Unique : (id : Opaque) (s : Store) → Unique s → Unique (recount id s)
unfolding recount
recount-Unique id s u = u

recount_each-Unique : (ms : List Message) (s : Store) → Unique s → Unique (recount_each ms s)
unfolding recount_each
recount_each-Unique [] s u = u
recount_each-Unique (m ∷ ms) s u = recount_each-Unique ms _ (elim (Bool-cases (is_expired m)) [
  | inl over ↦ rw over (recount-Unique m.to_endpoint s u)
  | inr live ↦ rw live u
])

pub sweep-Unique : (now : ℕ) (s : Store) → Unique s → Unique (sweep now s).1
unfolding sweep
sweep-Unique now s u =
    let requeued = reclaim now s in
    let ready =
      update-Unique (overdue now) (set_state expired) requeued (λ m. refl)
        (reclaim-Unique now s u) in
    elim (Bool-cases (ltb 0 (changed (overdue now) requeued.messages))) [
      | inl some_over ↦ rw some_over (
          recount_each-Unique (update (overdue now) (set_state expired) requeued.messages)
            (record requeued {
              messages = update (overdue now) (set_state expired) requeued.messages;
            })
            ready)
      | inr no_over ↦ rw no_over ready
    ]

apply_claim-Unique :
    (now : ℕ) (endpoint incarnation : Opaque) (lease : ℕ) (consumes : Bool) (m : Message)
    (rule : Rule) (s : Store)
    → Unique s
    → Unique (apply_claim now endpoint incarnation lease consumes m rule s)
unfolding apply_claim
apply_claim-Unique now endpoint incarnation lease consumes m rule s u =
    let mine = is_message m.message_id in
    let held = record s {
      messages = update mine (take_claim incarnation (saturating_add now lease)) s.messages;
    } in
    let right : Unique held =
      update-Unique mine (take_claim incarnation (saturating_add now lease)) s (λ n. refl) u in
    elim (Bool-cases (consumes && is_notice m.kind)) [
      | inl both ↦ rw both (
          recount-Unique endpoint
            (record held { messages = update mine (release consumed) held.messages })
            (update-Unique mine (release consumed) held (λ n. refl) right))
      | inr one ↦ rw one right
    ]

take_candidate-Unique :
    (now : ℕ) (endpoint incarnation : Opaque) (lease : ℕ) (consumes : Bool) (s : Store)
    (found : Option (Message × Rule))
    → Unique s
    → After Unique (take_candidate now endpoint incarnation lease consumes s found)
unfolding take_candidate
take_candidate-Unique now endpoint incarnation lease consumes s none u = record { holds = u }
take_candidate-Unique now endpoint incarnation lease consumes s (some (m, rule)) u = record {
  holds = apply_claim-Unique now endpoint incarnation lease consumes m rule s u;
}

claim_from-Unique :
    (s : Store) (now : ℕ) (endpoint incarnation : Opaque) (lease : ℕ) (consumes : Bool)
    → Unique s
    → After Unique (claim_from now endpoint incarnation lease consumes s)
unfolding claim_from
claim_from-Unique s now endpoint incarnation lease consumes u =
    on_result (first_visible s (by_sequence _)) s err _ (λ e. u)
      (λ found q. take_candidate-Unique now endpoint incarnation lease consumes s found u)

pub claim_as-Unique :
    (s : Store) (now : ℕ) (c : Caller) (lease_ms : Option ℤ) (consumes : Bool)
    → Unique s
    → After Unique (claim_as s now c lease_ms consumes)
unfolding claim_as
claim_as-Unique s now c lease_ms consumes u =
    on_result
      (agent_identity c >>= λ who.
        require_current_incarnation s who.0 who.1 >> (require_peer_authority s now c >> ok who))
      s err _ (λ e. u)
      (λ who q.
        on_finish Unique s
          (claim_from now who.0 who.1 (claim_lease lease_ms) consumes (reclaim now s)) u
          (claim_from-Unique (reclaim now s) now who.0 who.1 (claim_lease lease_ms) consumes
            (reclaim-Unique now s u)))

apply_cancel-Unique : (m : Message) (s : Store) → Unique s → Unique (apply_cancel m s).1
unfolding apply_cancel
apply_cancel-Unique m s u =
    elim (Bool-cases (ltb 0 (changed (is_queued_message m.message_id) s.messages))) [
      | inl waiting ↦ rw waiting (
          recount-Unique m.to_endpoint
            (record s {
              messages = update (is_queued_message m.message_id) (set_state cancelled) s.messages;
            })
            (update-Unique (is_queued_message m.message_id) (set_state cancelled) s (λ n. refl) u))
      | inr other ↦
          rw other
            (elim (Bool-cases (ltb 0 (changed (is_running_message m.message_id) s.messages))) [
              | inl busy ↦ rw busy (
                  update-Unique (is_running_message m.message_id) (set_state cancellation_requested)
                    s (λ n. refl) u)
              | inr done ↦ rw done u
            ])
    ]

pub cancel-Unique :
    (s : Store) (now : ℕ) (c : Caller) (id : Opaque) → Unique s → After Unique (cancel s now c id)
unfolding cancel
cancel-Unique s now c id u =
    on_result (may_cancel s now c >> load_message s id) s err _ (λ e. u)
      (λ m q.
        on_if (not (is_sender c m)) (λ b. record { holds = u })
          (λ b. record { holds = apply_cancel-Unique m s u }))

pub confirm-Unique :
    (s : Store) (now : ℕ) (id incarnation : Opaque)
    → Unique s
    → After Unique (confirm_interrupt s now id incarnation)
unfolding confirm_interrupt apply_confirm
confirm-Unique s now id incarnation u =
    on_result (load_message s id) s err _ (λ e. u)
      (λ m q. record {
        holds =
            elim (Bool-cases
              (ltb 0 (changed (confirmable s m.message_id incarnation) s.messages))) [
                | inl found ↦ rw found (
                    recount-Unique m.to_endpoint
                      (record s {
                        messages =
                            update (confirmable s m.message_id incarnation) confirm s.messages;
                      })
                      (update-Unique (confirmable s m.message_id incarnation) confirm s (λ n. refl)
                        u))
                | inr none_found ↦ rw none_found u
              ];
      })

retire_request-Unique :
    (now : ℕ) (m : Message) (outcome : Outcome) (s : Store)
    → Unique s
    → Unique (retire_request now m outcome s)
unfolding retire_request
retire_request-Unique now m outcome s u =
    let gone = record s {
      messages = update (is_open m.message_id) (release consumed) s.messages;
    } in
    let right : Unique gone =
      update-Unique (is_open m.message_id) (release consumed) s (λ n. refl) u in
    elim (Bool-cases (ltb 0 (changed (is_open m.message_id) s.messages))) [
      | inl pending ↦ rw pending (
          recount-Unique m.to_endpoint
            (record gone {
              endpoints = update (is_endpoint m.to_endpoint) (discharge _) gone.endpoints;
            })
            right)
      | inr shut ↦ rw shut right
    ]

module _ (is_absolute : Text → Bool) (refs_json : List Ref → Option Text)
    (sha256 : List ℕ → List ℕ) where
  pub respond-Unique :
      (s : Store) (now later : ℕ) (a b : Opaque) (c : Caller) (id : Opaque) (outcome : Outcome)
      (text : Text) (refs : List Ref) (key : Text)
      → Unique s
      → After Unique
          (respond is_absolute refs_json sha256 s now later a b c id outcome text refs key)
  unfolding respond
  respond-Unique s now later a b c id outcome text refs key u =
      on_result (answerable s now c id) s err _ (λ e. u)
        (λ found q.
          let d = response_draft found.0 found.1 outcome text refs key in
          let sent = send_as is_absolute refs_json sha256 now a b c d none s in
          let kept = send_as-Unique is_absolute refs_json sha256 now a b c d none s u in
          on_result sent.0 sent.1 err _ (λ e. kept)
            (λ reply k. record { holds = retire_request-Unique later found.0 outcome sent.1 kept }))
