-- ===== src/Store/Outcomes.antt =====
-- What a call of `send_as` can come to: it is refused, it repeats an earlier send, or it inserts one
-- message.
use vvagent.Base.{
  is_some-none, ℕ, ◌≡◌, refl, ap, ◌⊎◌, inl, inr, Bool, true, false, not, List, Option, none, some,
  arith, Text, text_eq, text_eq→≡, find, is_some, is_none,
}
use vvagent.Error.{Result, ok, err, ◌>>◌, MeshError, Result-cases, ok_or, ok_or-eq-ok}
use vvagent.Identity.Opaque.{Opaque}
use vvagent.Message.Ref.{Ref}
use vvagent.Message.Draft
use vvagent.Message.Draft.{Draft, charged_bytes, digest}
use vvagent.Store.Tables.{
  Store, EndpointRow, Message, Caller, IdempotencyRow, is_message, find_endpoint, load_message,
}
use vvagent.Store.Queries.{require_peer_authority, principal_key}
use vvagent.Store.Send.{send_as, deliver, replay, admit, insert, inserted}
use vvagent.Store.Admission.{
  new_message, enqueue_decision, over_rate, over_quota, routable, is_reply, prior_send,
}
use vvagent.Store.Branches.{Sat, on_if, on_result, on_option}

abbrev pub SameMail : Store → Store → Type 0
SameMail s t =
    (t.endpoints ≡ s.endpoints) × (t.messages ≡ s.messages) × (t.idempotency ≡ s.idempotency)

-- An error, and the mail is as it was.
abbrev pub Refuses : Store → Result Message × Store → Type 0
Refuses s x = (e : MeshError) × (x.0 ≡ err e) × SameMail s x.1

module _ (is_absolute : Text → Bool) (refs_json : List Ref → Option Text) (sha256 : List ℕ → List ℕ)
    (now : ℕ) (fresh_id fresh_conversation : Opaque) (c : Caller) (d : Draft)
    (origin : Option Opaque) where
  -- The same content went out under this key before; the message is the one from then.
  abbrev pub Replays : Store → Result Message × Store → Type 0
  Replays s x =
      (row : IdempotencyRow) × (m : Message) × (prior_send s (principal_key c.principal)
          d.idempotency_key
        ≡ some row)
      × (row.digest ≡ digest refs_json sha256 d)
      × (load_message s row.message_id ≡ ok m)
      × (x ≡ (ok m, s))

  -- One message is inserted for a target that admits the sender and has room.
  abbrev pub Inserts : Store → Result Message × Store → Type 0
  Inserts s x =
      (target : EndpointRow) × (reply : Bool) × (prior_send s (principal_key c.principal)
          d.idempotency_key
        ≡ none)
      × (find_endpoint s d.to ≡ some target)
      × ((enqueue_decision s c d target reply).allowed ≡ true)
      × (over_rate s now d target ≡ false)
      × (over_quota d target (charged_bytes refs_json d) ≡ false)
      × (find (is_message fresh_id) s.messages ≡ none)
      × (x ≡ (
        ok (
            new_message s now fresh_id fresh_conversation c d origin target.next_sequence
              (charged_bytes refs_json d)),
        inserted is_absolute refs_json sha256 now fresh_id fresh_conversation c d origin s target
            (enqueue_decision s c d target reply).rule,
      ))

  abbrev pub Sends : Store → Result Message × Store → Type 0
  Sends s x = Refuses s x ⊎ Replays s x ⊎ Inserts s x

  refused : (s t : Store) (e : MeshError) → SameMail s t → Sat (Sends s) (err e, t)
  refused s t e h = record { holds = inl (e, refl, h) }

  admit-Sends :
      (s : Store) (target : EndpointRow) (reply : Bool)
      → prior_send s (principal_key c.principal) d.idempotency_key ≡ none
      → find_endpoint s d.to ≡ some target
      → Sat (Sends s) (
          admit is_absolute refs_json sha256 now fresh_id fresh_conversation c d origin s target
            reply)
  unfolding admit insert
  admit-Sends s target reply unknown found =
      let decision = enqueue_decision s c d target reply in
      on_if (not decision.allowed) (λ b. refused s _ _ (refl, refl, refl))
        (λ allowed.
          on_if (over_rate s now d target) (λ b. refused s _ _ (refl, refl, refl))
            (λ slow.
              on_if (over_quota d target (charged_bytes refs_json d))
                (λ b. refused s _ _ (refl, refl, refl))
                (λ room.
                  on_if (is_none (refs_json d.refs)) (λ b. refused s _ _ (refl, refl, refl))
                    (λ written.
                      on_if (is_some (find (is_message fresh_id) s.messages))
                        (λ b. refused s _ _ (refl, refl, refl))
                        (λ fresh. record {
                          holds = inr (
                              inr (
                                target,
                                reply,
                                unknown,
                                found,
                                ground arith,
                                slow,
                                room,
                                is_some-none _ fresh,
                                refl,
                              ));
                        })))))

  deliver-Sends :
      (s : Store)
      → prior_send s (principal_key c.principal) d.idempotency_key ≡ none
      → Sat
          (Sends s)
          (deliver is_absolute refs_json sha256 now fresh_id fresh_conversation c d origin s)
  unfolding deliver
  deliver-Sends s unknown =
      on_result (ok_or (find_endpoint s d.to) _) s err _ (λ e. inl (e, refl, (refl, refl, refl)))
        (λ target q.
          on_result (routable s c target >> is_reply s c d) s err _
            (λ e. inl (e, refl, (refl, refl, refl)))
            (λ reply q'.
              admit-Sends s target reply unknown (ok_or-eq-ok (find_endpoint s d.to) _ q)))

  replay-Sends :
      (s : Store) (row : IdempotencyRow)
      → prior_send s (principal_key c.principal) d.idempotency_key ≡ some row
      → Sat
          (Sends s)
          (replay is_absolute refs_json sha256 now fresh_id fresh_conversation c d origin s row)
  unfolding replay
  replay-Sends s row known =
      on_if (text_eq row.digest (digest refs_json sha256 d))
        (λ same. elim (Result-cases (load_message s row.message_id)) [
          | inl (m, q) ↦ record {
            holds = inr (
                inl (
                  row,
                  m,
                  known,
                  text_eq→≡ row.digest _ same,
                  q,
                  ap (λ (r : Result Message). (r, s)) q,
                ));
          }
          | inr (e, q) ↦ record { holds = inl (e, q, (refl, refl, refl)) }
        ])
        (λ other. refused s _ _ (refl, refl, refl))

  send-Sends :
      (s : Store)
      → Sat
          (Sends s)
          (send_as is_absolute refs_json sha256 now fresh_id fresh_conversation c d origin s)
  unfolding send_as
  send-Sends s =
      on_result (Draft.validate is_absolute d >> require_peer_authority s now c) s err _
        (λ e. inl (e, refl, (refl, refl, refl)))
        (λ u q.
          on_option (prior_send s (principal_key c.principal) d.idempotency_key) _ _
            (deliver-Sends s) (replay-Sends s))

  -- Every call of `send_as` is one of the three.
  pub send_as-Sends :
      (s : Store)
      → Sends s (send_as is_absolute refs_json sha256 now fresh_id fresh_conversation c d origin s)
  send_as-Sends s = (send-Sends s).holds
