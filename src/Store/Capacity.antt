-- ===== src/Store/Capacity.antt =====
-- What a send adds to the store: at most one message, within its recipient's capacity.
use vvagent.Base.{
  ℕ, ◌+◌, ◌≤◌, ◌≡◌, ◌≢◌, refl, sym, ap, subst, ◌∙◌, ◌⊎◌, inl, inr, Bool, false, List, [], ◌∷◌, ◌++◌,
  Option, some, arith, Text, if◌then◌else◌, In, Bool-cases, find-In,
}
use vvagent.Error.{Result, ok}
use vvagent.Identity.Opaque.{Opaque, opaque_eq→≡}
use vvagent.Message.Kind.{Kind, request, notice, response}
use vvagent.Message.State.{queued}
use vvagent.Message.Ref.{Ref}
use vvagent.Message.Draft.{Draft, charged_bytes}
use vvagent.Policy.Defs.{Rule}
use vvagent.Store.Tables.{Store, EndpointRow, Message, Caller, is_endpoint, find_endpoint}
use vvagent.Store.Rows.{In-update}
use vvagent.Store.Send.{send_as, inserted}
use vvagent.Store.Admission.{new_message, over_quota, charge, count_cap, byte_cap}
use vvagent.Store.Outcomes.{send_as-Sends}

-- The primary key of `endpoint`: one row for an id.
abbrev pub Keyed : Store → Type 0
Keyed s =
    (e f : EndpointRow)
    → In e s.endpoints
    → In f s.endpoints
    → e.endpoint_id ≡ f.endpoint_id
    → e ≡ f

-- The capacity of a mailbox, by the kind of the message that was added to it.
abbrev pub Fits : Kind → EndpointRow → Type 0
Fits kind e =
    (e.pending_count ≤ 272)
    × (e.pending_bytes ≤ 5242880)
    × (kind ≢ response → (e.pending_count ≤ 256) × (e.pending_bytes ≤ 4194304))

caps-Fits :
    (kind : Kind) (e : EndpointRow)
    → e.pending_count ≤ count_cap kind
    → e.pending_bytes ≤ byte_cap kind
    → Fits kind e
caps-Fits request e count size = (omega arith, omega arith, λ _. (count, size))
caps-Fits notice e count size = (omega arith, omega arith, λ _. (count, size))
caps-Fits response e count size = (count, size, λ other. absurd (other refl))

module _ (is_absolute : Text → Bool) (refs_json : List Ref → Option Text) (sha256 : List ℕ → List ℕ)
    (now : ℕ) (fresh_id fresh_conversation : Opaque) (c : Caller) (d : Draft)
    (origin : Option Opaque) where
  -- The messages after a call are those before it, in their order and unchanged, and at most one
  -- more: the message that the call returns, queued for the draft's recipient in the caller's name.
  pub send_as-appends :
      (s : Store)
      → let x = send_as is_absolute refs_json sha256 now fresh_id fresh_conversation c d origin s in
        (x.1.messages ≡ s.messages)
        ⊎ ((m : Message) × (x.0 ≡ ok m)
            × (x.1.messages ≡ s.messages ++ m ∷ [])
            × (m.state ≡ queued)
            × (m.to_endpoint ≡ d.to)
            × (m.kind ≡ d.kind)
            × (m.text ≡ d.text)
            × (m.from_principal ≡ c.principal))
  send_as-appends s =
      elim (send_as-Sends is_absolute refs_json sha256 now fresh_id fresh_conversation c d origin
        s) [
          | inl (e, q, same) ↦ inl same.1
          | inr (inl (row, m, known, same, loaded, q)) ↦
              inl (ap (λ (x : Result Message × Store). x.1.messages) q)
          | inr (inr (target, reply, unknown, found, admitted, slow, room, free, q)) ↦ inr (
            new_message s now fresh_id fresh_conversation c d origin target.next_sequence
                (charged_bytes refs_json d),
            ap (λ (x : Result Message × Store). x.0) q,
            ap (λ (x : Result Message × Store). x.1.messages) q ∙ unfold inserted in refl,
            refl,
            refl,
            refl,
            refl,
            refl,
          )
        ]

  inserted-capped :
      (s : Store) (target : EndpointRow) (rule : Rule) (e : EndpointRow)
      → Keyed s
      → find_endpoint s d.to ≡ some target
      → over_quota d target (charged_bytes refs_json d) ≡ false
      → In e
          (inserted is_absolute refs_json sha256 now fresh_id fresh_conversation c d origin s target
            rule).endpoints
      → In e s.endpoints
        ⊎ ((e.endpoint_id ≡ d.to)
            × (e.pending_count ≤ count_cap d.kind)
            × (e.pending_bytes ≤ byte_cap d.kind))
  unfolding inserted find_endpoint over_quota
  inserted-capped s target rule e k found room i =
      let size = charged_bytes refs_json d in
      let (x, j, q) = In-update (is_endpoint d.to) (charge size) e s.endpoints i in
      let (t, self) = find-In (is_endpoint d.to) s.endpoints target found in
      elim (Bool-cases (is_endpoint d.to x)) [
        | inl mine ↦
            let to : x.endpoint_id ≡ d.to = opaque_eq→≡ x.endpoint_id d.to mine in
            let same : x ≡ target =
              k x target j t (to ∙ sym (opaque_eq→≡ target.endpoint_id d.to self)) in
            let row : e ≡ charge size target =
              q ∙ ap (λ (b : Bool). if b then charge size x else x) mine ∙ ap (charge size) same in
            let fits : (target.pending_count + 1 ≤ count_cap d.kind)
                × (target.pending_bytes + size ≤ byte_cap d.kind) =
              ground arith in
            inr (
              subst
                (λ (r : EndpointRow).
                  (r.endpoint_id ≡ d.to)
                  × (r.pending_count ≤ count_cap d.kind)
                  × (r.pending_bytes ≤ byte_cap d.kind))
                (sym row) (opaque_eq→≡ target.endpoint_id d.to self, fits.0, fits.1))
        | inr other ↦ inl (
            subst (λ (r : EndpointRow). In r s.endpoints)
              (sym (q ∙ ap (λ (b : Bool). if b then charge size x else x) other)) j)
      ]

  -- Where endpoint ids are unique, each endpoint after a call is as it was before, or is the
  -- recipient and within its capacity: 272 messages and 5 MiB, and after a draft that is not a
  -- response, 256 messages and 4 MiB.
  pub send_as-capped :
      (s : Store) (e : EndpointRow)
      → Keyed s
      → In e
          (send_as is_absolute refs_json sha256 now fresh_id fresh_conversation c d origin
            s).1.endpoints
      → In e s.endpoints ⊎ ((e.endpoint_id ≡ d.to) × Fits d.kind e)
  send_as-capped s e k i =
      elim (send_as-Sends is_absolute refs_json sha256 now fresh_id fresh_conversation c d origin
        s) [
          | inl (m, q, same) ↦ inl (subst (In e) same.0 i)
          | inr (inl (row, m, known, same, loaded, q)) ↦
              inl (subst (λ (x : Result Message × Store). In e x.1.endpoints) q i)
          | inr (inr (target, reply, unknown, found, admitted, slow, room, free, q)) ↦
              elim (inserted-capped s target _ e k found room
                (subst (λ (x : Result Message × Store). In e x.1.endpoints) q i)) [
                  | inl before ↦ inl before
                  | inr (to, count, size) ↦ inr (to, caps-Fits d.kind e count size)
                ]
        ]
