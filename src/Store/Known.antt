-- ===== src/Store/Known.antt =====
-- What `send_as` answers where the key is known already.
use vvagent.Base.{
  ℕ, ◌≡◌, ◌≢◌, refl, sym, ap, subst, ◌∙◌, inl, inr, Bool, true, false, List, Option, some, Text,
  codes, text_eq, text_eq→≡, text_eq_refl, Bool-cases,
}
use vvagent.Error.{
  Result, ok, err, ◌>>◌, MeshError, new, idempotency_conflict, Result-cases, >>-eq-ok,
}
use vvagent.Identity.Opaque.{Opaque}
use vvagent.Message.Ref.{Ref}
use vvagent.Message.Draft
use vvagent.Message.Draft.{Draft, charged_bytes, digest}
use vvagent.Store.Tables.{Store, Message, Caller, IdempotencyRow, load_message}
use vvagent.Store.Queries.{require_peer_authority, principal_key}
use vvagent.Store.Send.{send_as, replay}
use vvagent.Store.Admission.{prior_send}
use vvagent.Store.Outcomes.{SameMail}

module _ (is_absolute : Text → Bool) (refs_json : List Ref → Option Text) (sha256 : List ℕ → List ℕ)
    (now : ℕ) (fresh_id fresh_conversation : Opaque) (c : Caller) (d : Draft)
    (origin : Option Opaque) where
  -- A send that succeeds was of a valid draft.
  pub send_as-valid :
      (s : Store) (m : Message)
      → (send_as is_absolute refs_json sha256 now fresh_id fresh_conversation c d origin s).0 ≡ ok m
      → Draft.validate is_absolute d ≡ ok tt
  unfolding send_as
  send_as-valid s m h =
      elim (Result-cases (Draft.validate is_absolute d >> require_peer_authority s now c)) [
        | inl (u, q) ↦
            ((>>-eq-ok (Draft.validate is_absolute d) (require_peer_authority s now c) tt).0 q).0
        | inr (e, q) ↦ cc (rw (q, send_as) at h)
      ]

  send_as-replay :
      (s : Store) (row : IdempotencyRow)
      → Draft.validate is_absolute d ≡ ok tt
      → require_peer_authority s now c ≡ ok tt
      → prior_send s (principal_key c.principal) d.idempotency_key ≡ some row
      → send_as is_absolute refs_json sha256 now fresh_id fresh_conversation c d origin s
        ≡ replay is_absolute refs_json sha256 now fresh_id fresh_conversation c d origin s row
  unfolding send_as
  send_as-replay s row valid may known =
      rw
        (
          (>>-eq-ok (Draft.validate is_absolute d) (require_peer_authority s now c) tt).1
              (valid, may),
          send_as,
          known,
        )
        refl

  -- What is known under the key is answered from the store, if the content is the same.
  pub send_as-known :
      (s : Store) (row : IdempotencyRow) (m : Message)
      → Draft.validate is_absolute d ≡ ok tt
      → require_peer_authority s now c ≡ ok tt
      → prior_send s (principal_key c.principal) d.idempotency_key ≡ some row
      → row.digest ≡ digest refs_json sha256 d
      → load_message s row.message_id ≡ ok m
      → send_as is_absolute refs_json sha256 now fresh_id fresh_conversation c d origin s
        ≡ (ok m, s)
  unfolding replay
  send_as-known s row m valid may known same loaded =
      let matches : text_eq row.digest (digest refs_json sha256 d) ≡ true =
        ap (λ t. text_eq t (digest refs_json sha256 d)) same
        ∙ text_eq_refl (digest refs_json sha256 d) in
      send_as-replay s row valid may known ∙ rw (matches, replay, loaded) refl

  -- The mail is as it was, and the answer is a conflict.
  abbrev pub Conflicts : Store → Result Message × Store → Type 0
  Conflicts s x =
      ((e : MeshError) × (x.0 ≡ err e) × (e.code ≡ idempotency_conflict)) × SameMail s x.1

  replay-conflict :
      (s : Store) (row : IdempotencyRow)
      → text_eq row.digest (digest refs_json sha256 d) ≡ false
      → Conflicts s
          (replay is_absolute refs_json sha256 now fresh_id fresh_conversation c d origin s row)
  unfolding replay
  replay-conflict s row differs =
      rw (differs, replay)
        (
          (
            new idempotency_conflict
                (codes "that idempotency key was used for a different message"),
            refl,
            refl,
          ),
          (refl, refl, refl),
        )

  -- Other content under a known key is refused as a conflict, and the mail is as it was.
  pub send_as-conflict :
      (s : Store) (row : IdempotencyRow)
      → Draft.validate is_absolute d ≡ ok tt
      → require_peer_authority s now c ≡ ok tt
      → prior_send s (principal_key c.principal) d.idempotency_key ≡ some row
      → row.digest ≢ digest refs_json sha256 d
      → Conflicts s
          (send_as is_absolute refs_json sha256 now fresh_id fresh_conversation c d origin s)
  send_as-conflict s row valid may known other =
      let differs : text_eq row.digest (digest refs_json sha256 d) ≡ false =
        elim (Bool-cases (text_eq row.digest (digest refs_json sha256 d))) [
          | inl e ↦ absurd (other (text_eq→≡ row.digest _ e))
          | inr e ↦ e
        ] in
      subst (Conflicts s) (sym (send_as-replay s row valid may known))
        (replay-conflict s row differs)
