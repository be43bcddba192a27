-- ===== src/Store/Accounting.antt =====
-- Sending, claiming, cancelling and sweeping keep the counters right.
use vvagent.Base.{
  ℕ, ◌≡◌, sym, ap, subst, ◌∙◌, inl, inr, Bool, false, not, List, Option, arith, Text, text_eq,
  if◌then◌else◌, find, is_some, is_none, Bool-cases,
}
use vvagent.Error.{err, ◌>>◌, ok_or}
use vvagent.Identity.Opaque.{Opaque, opaque_eq, opaque_eq→≡, opaque_eq_refl}
use vvagent.Message.Ref.{Ref}
use vvagent.Message.Draft.{Draft, charged_bytes, digest}
use vvagent.Message.Draft
use vvagent.Policy.Defs.{Rule}
use vvagent.Store.Tables.{Store, EndpointRow, Caller, find_endpoint, is_endpoint, is_message}
use vvagent.Store.Rows.{In-update, keep-append, total-append}
use vvagent.Store.Queries.{occupies, require_peer_authority, principal_key}
use vvagent.Store.Send.{send_as, deliver, replay, admit, insert, inserted}
use vvagent.Store.Admission.{
  new_message, charge, enqueue_decision, over_rate, over_quota, routable, is_reply, prior_send,
}
use vvagent.Store.Branches.{After, on_if, on_result, on_option}
use vvagent.Store.Counting.{Counted, RowCounted}

opaque_eq-false_sym : (a b : Opaque) → opaque_eq a b ≡ false → opaque_eq b a ≡ false
opaque_eq-false_sym a b h = elim (Bool-cases (opaque_eq b a)) [
  | inl e ↦ cc (h, ap (opaque_eq a) (opaque_eq→≡ b a e), opaque_eq_refl a)
  | inr e ↦ e
]

module _ (is_absolute : Text → Bool) (refs_json : List Ref → Option Text) (sha256 : List ℕ → List ℕ)
    (now : ℕ) (fresh_id fresh_conversation : Opaque) (c : Caller) (d : Draft)
    (origin : Option Opaque) where
  -- An inserted message adds one and its bytes to its recipient's row, and nothing to the others.
  inserted-Counted :
      (s : Store) (target : EndpointRow) (rule : Rule)
      → Counted s
      → Counted (
          inserted is_absolute refs_json sha256 now fresh_id fresh_conversation c d origin s target
            rule)
  unfolding inserted
  inserted-Counted s target rule h e i =
      let size = charged_bytes refs_json d in
      let m = new_message s now fresh_id fresh_conversation c d origin target.next_sequence size in
      let (x, j, q) = In-update (is_endpoint d.to) (charge size) e s.endpoints i in
      let kept = keep-append (occupies x.endpoint_id) s.messages m in
      let summed = total-append (occupies x.endpoint_id) (λ n. n.bytes) s.messages m in
      let right = h x j in
      elim (Bool-cases (is_endpoint d.to x)) [
        | inl mine ↦
            let same : e ≡ charge size x =
              q ∙ ap (λ (b : Bool). if b then charge size x else x) mine in
            subst
              (RowCounted (
                inserted is_absolute refs_json sha256 now fresh_id fresh_conversation c d origin s
                  target rule))
              (sym same) (ground (arith, opaque_eq_refl d.to, opaque_eq→≡ x.endpoint_id d.to mine))
        | inr other ↦
            let same : e ≡ x = q ∙ ap (λ (b : Bool). if b then charge size x else x) other in
            subst
              (RowCounted (
                inserted is_absolute refs_json sha256 now fresh_id fresh_conversation c d origin s
                  target rule))
              (sym same) (ground (arith, opaque_eq-false_sym x.endpoint_id d.to other))
      ]

  insert-Counted :
      (s : Store) (target : EndpointRow) (rule : Rule)
      → Counted s
      → After Counted (
          insert is_absolute refs_json sha256 now fresh_id fresh_conversation c d origin s target
            rule)
  unfolding insert
  insert-Counted s target rule h =
      on_if (is_none (refs_json d.refs)) (λ b. record { holds = h })
        (λ b.
          on_if (is_some (find (is_message fresh_id) s.messages)) (λ b. record { holds = h })
            (λ b'. record { holds = inserted-Counted s target rule h }))

  admit-Counted :
      (s : Store) (target : EndpointRow) (reply : Bool)
      → Counted s
      → After Counted (
          admit is_absolute refs_json sha256 now fresh_id fresh_conversation c d origin s target
            reply)
  unfolding admit
  admit-Counted s target reply h =
      let decision = enqueue_decision s c d target reply in
      on_if (not decision.allowed) (λ b. record { holds = h })
        (λ b.
          on_if (over_rate s now d target) (λ b. record { holds = h })
            (λ b.
              on_if (over_quota d target (charged_bytes refs_json d)) (λ b. record { holds = h })
                (λ b. insert-Counted s target decision.rule h)))

  deliver-Counted :
      (s : Store)
      → Counted s
      → After Counted
          (deliver is_absolute refs_json sha256 now fresh_id fresh_conversation c d origin s)
  unfolding deliver
  deliver-Counted s h =
      on_result (ok_or (find_endpoint s d.to) _) s err _ (λ e. h)
        (λ target q.
          on_result (routable s c target >> is_reply s c d) s err _ (λ e. h)
            (λ reply q'. admit-Counted s target reply h))

  send-Counted :
      (s : Store)
      → Counted s
      → After Counted
          (send_as is_absolute refs_json sha256 now fresh_id fresh_conversation c d origin s)
  unfolding send_as replay
  send-Counted s h =
      on_result (Draft.validate is_absolute d >> require_peer_authority s now c) s err _ (λ e. h)
        (λ u q.
          on_option (prior_send s (principal_key c.principal) d.idempotency_key) _ _
            (λ b. deliver-Counted s h)
            (λ row b.
              on_if (text_eq row.digest (digest refs_json sha256 d)) (λ b. record { holds = h })
                (λ b. record { holds = h })))

  -- Whatever `send_as` answers, the counters stay right: each endpoint's counts are those of the
  -- pending messages in its mailbox.
  pub send_as-Counted :
      (s : Store)
      → Counted s
      → Counted
          (send_as is_absolute refs_json sha256 now fresh_id fresh_conversation c d origin s).1
  send_as-Counted s h = (send-Counted s h).holds
