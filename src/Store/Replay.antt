-- ===== src/Store/Replay.antt =====
-- Sending the same thing again: one idempotency key stands for one message.
use vvagent.Base.{
  ℕ, ◌≡◌, ◌≢◌, refl, sym, ap, subst, ◌∙◌, inl, inr, Bool, true, ◌&&◌, List, [], ◌∷◌, ◌++◌, Option,
  none, some, arith, Text, codes, text_eq, text_eq_refl, find,
}
use vvagent.Error.{Result, ok, ok_or, new, not_found}
use vvagent.Identity.Opaque.{Opaque, opaque_eq_refl}
use vvagent.Message.Ref.{Ref}
use vvagent.Message.Draft
use vvagent.Message.Draft.{Draft, charged_bytes, digest}
use vvagent.Policy.Defs.{Rule}
use vvagent.Store.Tables.{
  Store, EndpointRow, Message, Caller, IdempotencyRow, is_message, load_message,
}
use vvagent.Store.Queries.{require_peer_authority, principal_key}
use vvagent.Store.Send.{send_as, inserted}
use vvagent.Store.Admission.{enqueue_decision, new_message, prior_send}
use vvagent.Store.Outcomes.{Sends, send_as-Sends}
use vvagent.Store.Known.{send_as-valid, send_as-known, send_as-conflict, Conflicts}

pub find-last :
    {A : Type 0} (p : A → Bool) (xs : List A) (x : A)
    → find p xs ≡ none
    → p x ≡ true
    → find p (xs ++ x ∷ []) ≡ some x
find-last p [] x h k = ground arith
find-last p (y ∷ ys) x h k = ground (arith, find-last p ys x)

pub pair_inv :
    {A B : Type 0} {a a' : A} {b b' : B} → Path (A × B) (a, b) (a', b') → (a ≡ a') × (b ≡ b')
pair_inv h = (ap (λ x. x.0) h, ap (λ x. x.1) h)

module _ (is_absolute : Text → Bool) (refs_json : List Ref → Option Text) (sha256 : List ℕ → List ℕ)
    (c : Caller) (d : Draft) where
  inserted-known :
      (now : ℕ) (id fresh : Opaque) (origin : Option Opaque) (s : Store) (target : EndpointRow)
      (rule : Rule)
      → prior_send s (principal_key c.principal) d.idempotency_key ≡ none
      → find (is_message id) s.messages ≡ none
      → let t = inserted is_absolute refs_json sha256 now id fresh c d origin s target rule in
        (row : IdempotencyRow) × (prior_send t (principal_key c.principal) d.idempotency_key
          ≡ some row)
        × (row.digest ≡ digest refs_json sha256 d)
        × (load_message t row.message_id
            ≡ ok (
                new_message s now id fresh c d origin target.next_sequence
                  (charged_bytes refs_json d)))
  unfolding inserted prior_send load_message
  inserted-known now id fresh origin s target rule unknown free =
      let row : IdempotencyRow = record {
        sender = principal_key c.principal;
        key = d.idempotency_key;
        digest = digest refs_json sha256 d;
        message_id = id;
      } in
      let m =
        new_message s now id fresh c d origin target.next_sequence (charged_bytes refs_json d) in
      (
        row,
        find-last
            (λ r. text_eq r.sender (principal_key c.principal) && text_eq r.key d.idempotency_key)
            s.idempotency row unknown
            (ground
              (arith, text_eq_refl (principal_key c.principal), text_eq_refl d.idempotency_key)),
        refl,
        ap (λ o. ok_or o (new not_found (codes "no such message")))
            (find-last (is_message id) s.messages m free (opaque_eq_refl id)),
      )

  -- What a send that succeeded leaves under its key.
  pub sent_row :
      (now : ℕ) (id fresh : Opaque) (origin : Option Opaque) (s t : Store) (m : Message)
      → send_as is_absolute refs_json sha256 now id fresh c d origin s ≡ (ok m, t)
      → (row : IdempotencyRow) × (prior_send t (principal_key c.principal) d.idempotency_key
          ≡ some row)
        × (row.digest ≡ digest refs_json sha256 d)
        × (load_message t row.message_id ≡ ok m)
  sent_row now id fresh origin s t m h =
      elim (subst (Sends is_absolute refs_json sha256 now id fresh c d origin s) h
        (send_as-Sends is_absolute refs_json sha256 now id fresh c d origin s)) [
          | inl (e, q, same) ↦ cc
          | inr (inl (row, n, known, same, loaded, q)) ↦
              let (out, left) = pair_inv q in
              (
                row,
                ap (λ x. prior_send x (principal_key c.principal) d.idempotency_key) left ∙ known,
                same,
                ap (λ x. load_message x row.message_id) left ∙ loaded ∙ sym out,
              )
          | inr (inr (target, reply, unknown, found, admitted, slow, room, free, q)) ↦
              let (out, left) = pair_inv q in
              let (row, known, same, loaded) =
                inserted-known now id fresh origin s target
                  (enqueue_decision s c d target reply).rule unknown free in
              (
                row,
                ap (λ x. prior_send x (principal_key c.principal) d.idempotency_key) left ∙ known,
                same,
                ap (λ x. load_message x row.message_id) left ∙ loaded ∙ sym out,
              )
        ]

  -- A send that succeeded and is repeated, at any later time and with whatever fresh ids, returns the
  -- same message and changes nothing, where the caller may still act for its peer (any other caller
  -- may).
  pub send_as-repeated :
      (now : ℕ) (id fresh : Opaque) (origin : Option Opaque) (s t : Store) (m : Message) (later : ℕ)
      (id' fresh' : Opaque) (origin' : Option Opaque)
      → send_as is_absolute refs_json sha256 now id fresh c d origin s ≡ (ok m, t)
      → require_peer_authority t later c ≡ ok tt
      → send_as is_absolute refs_json sha256 later id' fresh' c d origin' t ≡ (ok m, t)
  send_as-repeated now id fresh origin s t m later id' fresh' origin' h may =
      let valid =
        send_as-valid is_absolute refs_json sha256 now id fresh c d origin s m
          (ap (λ (x : Result Message × Store). x.0) h) in
      let (row, known, same, loaded) = sent_row now id fresh origin s t m h in
      send_as-known is_absolute refs_json sha256 later id' fresh' c d origin' t row m valid may
        known same loaded

module _ (is_absolute : Text → Bool) (refs_json : List Ref → Option Text) (sha256 : List ℕ → List ℕ)
    (c : Caller) (d e : Draft) where
  -- After a send that succeeded, any other valid draft of the same sender under the same key, that
  -- is one with another digest, is answered with `idempotency_conflict`, and no endpoint, message or
  -- key changes, as long as the sender may still act: a peer's proxy only under its live lease.
  pub send_as-reused :
      (now : ℕ) (id fresh : Opaque) (origin : Option Opaque) (s t : Store) (m : Message) (later : ℕ)
      (id' fresh' : Opaque) (origin' : Option Opaque)
      → send_as is_absolute refs_json sha256 now id fresh c d origin s ≡ (ok m, t)
      → e.idempotency_key ≡ d.idempotency_key
      → digest refs_json sha256 e ≢ digest refs_json sha256 d
      → Draft.validate is_absolute e ≡ ok tt
      → require_peer_authority t later c ≡ ok tt
      → Conflicts is_absolute refs_json sha256 later id' fresh' c e origin' t
          (send_as is_absolute refs_json sha256 later id' fresh' c e origin' t)
  send_as-reused now id fresh origin s t m later id' fresh' origin' h same_key other valid may =
      let (row, known, same, loaded) =
        sent_row is_absolute refs_json sha256 c d now id fresh origin s t m h in
      send_as-conflict is_absolute refs_json sha256 later id' fresh' c e origin' t row valid may
        (ap (prior_send t (principal_key c.principal)) same_key ∙ known) (λ q. other (sym q ∙ same))
