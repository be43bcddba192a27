-- ===== src/Store/Responding.antt =====
-- Sending keeps message ids unique, and a response as a whole keeps the counters right.
use vvagent.Base.{
  ℕ, ◌≡◌, ◌≢◌, refl, sym, ap, subst, ◌∙◌, inl, inr, Bool, List, [], ◌∷◌, ◌++◌, Option, none, Text,
  find, find-none, In, In-cons, In-nil, In-append, In-append_left,
}
use vvagent.Error.{Result, ok, err, >>-eq-ok, >>=-eq-ok}
use vvagent.Identity.Opaque.{Opaque, opaque_eq, opaque_eq_refl}
use vvagent.Message.Outcome.{Outcome}
use vvagent.Message.Ref.{Ref}
use vvagent.Message.Draft.{Draft, charged_bytes}
use vvagent.Store.Tables.{Store, Message, Caller, is_message, load_message}
use vvagent.Store.Queries.{agent_identity, require_current_incarnation, require_peer_authority}
use vvagent.Store.Send.{send_as, inserted}
use vvagent.Store.Admission.{new_message}
use vvagent.Store.Respond.{respond, answerable, check_request, response_draft}
use vvagent.Store.Branches.{After, on_result}
use vvagent.Store.Counting.{Counted}
use vvagent.Store.Settling.{Unique, load-In}
use vvagent.Store.Accounting.{send_as-Counted}
use vvagent.Store.Outcomes.{send_as-Sends}
use vvagent.Store.Retiring.{retire_request-Counted}

-- Ids that differ from all others stay unique when one is added.
append-Unique :
    (s t : Store) (m : Message)
    → t.messages ≡ s.messages ++ m ∷ []
    → find (is_message m.message_id) s.messages ≡ none
    → Unique s
    → Unique t
append-Unique s t m q free u =
    subst
      (λ (ms : List Message).
        (x y : Message) → In x ms → In y ms → x.message_id ≡ y.message_id → x ≡ y)
      (sym q) both
  where
    new : (x : Message) → In x s.messages → x.message_id ≢ m.message_id
    new x i e = cc (
      find-none (is_message m.message_id) s.messages free x i,
      ap (λ (y : Opaque). opaque_eq y m.message_id) e,
      opaque_eq_refl m.message_id,
    )

    last : (x : Message) → In x (m ∷ []) → x ≡ m
    last x i = elim (In-cons i) [ inl e ↦ e | inr j ↦ absurd (In-nil j) ]

    both :
        (x y : Message)
        → In x (s.messages ++ m ∷ [])
        → In y (s.messages ++ m ∷ [])
        → x.message_id ≡ y.message_id
        → x ≡ y
    both x y i j e = elim (In-append s.messages i) [
      | inl a ↦ elim (In-append s.messages j) [
        | inl b ↦ u x y a b e
        | inr b ↦ absurd (new x a (e ∙ ap (λ (z : Message). z.message_id) (last y b)))
      ]
      | inr a ↦ elim (In-append s.messages j) [
        | inl b ↦ absurd (new y b (sym e ∙ ap (λ (z : Message). z.message_id) (last x a)))
        | inr b ↦ last x a ∙ sym (last y b)
      ]
    ]

module _ (is_absolute : Text → Bool) (refs_json : List Ref → Option Text) (sha256 : List ℕ → List ℕ)
    (now : ℕ) (fresh_id fresh_conversation : Opaque) (c : Caller) where
  -- Sending keeps the ids of messages unique.
  pub send_as-Unique :
      (d : Draft) (origin : Option Opaque) (s : Store)
      → Unique s
      → Unique (send_as is_absolute refs_json sha256 now fresh_id fresh_conversation c d origin s).1
  send_as-Unique d origin s u =
      elim (send_as-Sends is_absolute refs_json sha256 now fresh_id fresh_conversation c d origin
        s) [
          | inl (e, q, same) ↦
              subst
                (λ (ms : List Message).
                  (x y : Message) → In x ms → In y ms → x.message_id ≡ y.message_id → x ≡ y)
                (sym same.1) u
          | inr (inl (row, m, known, same, loaded, q)) ↦
              subst (λ (x : Result Message × Store). Unique x.1) (sym q) u
          | inr (inr (target, reply, unknown, found, admitted, slow, room, free, q)) ↦
              append-Unique s
                (send_as is_absolute refs_json sha256 now fresh_id fresh_conversation c d origin
                  s).1
                (new_message s now fresh_id fresh_conversation c d origin target.next_sequence
                  (charged_bytes refs_json d))
                (ap (λ (x : Result Message × Store). x.1.messages) q ∙ unfold inserted in refl) free
                u
        ]

  -- Sending loses no message.
  send_as-In :
      (d : Draft) (origin : Option Opaque) (s : Store) (m : Message)
      → In m s.messages
      → In m
          (send_as is_absolute refs_json sha256 now fresh_id fresh_conversation c d origin
            s).1.messages
  send_as-In d origin s m i =
      elim (send_as-Sends is_absolute refs_json sha256 now fresh_id fresh_conversation c d origin
        s) [
          | inl (e, q, same) ↦ subst (In m) (sym same.1) i
          | inr (inl (row, n, known, same, loaded, q)) ↦
              subst (λ (x : Result Message × Store). In m x.1.messages) (sym q) i
          | inr (inr (target, reply, unknown, found, admitted, slow, room, free, q)) ↦
              subst (λ (x : Result Message × Store). In m x.1.messages) (sym q)
                (unfold inserted in In-append_left _ i)
        ]

answerable-In :
    (s : Store) (now : ℕ) (c : Caller) (id : Opaque) (found : Message × Opaque)
    → answerable s now c id ≡ ok found
    → In found.0 s.messages
unfolding answerable
answerable-In s now c id found h =
    let (who, a, h1) = >>=-eq-ok (agent_identity c) _ h in
    let (b, h2) = (>>-eq-ok (require_current_incarnation s who.0 who.1) _ found).0 h1 in
    let (p, h3) = (>>-eq-ok (require_peer_authority s now c) _ found).0 h2 in
    let (m, loaded, h4) = >>=-eq-ok (load_message s id) _ h3 in
    let (requester, asked, h5) = >>=-eq-ok (check_request m who.0) _ h4 in
    let same : (m, requester) ≡ found = cc in
    subst (λ (x : Message × Opaque). In x.0 s.messages) same (load-In s id m loaded).0

respond-After :
    (is_absolute : Text → Bool) (refs_json : List Ref → Option Text) (sha256 : List ℕ → List ℕ)
    (s : Store) (now later : ℕ) (fresh_id fresh_conversation : Opaque) (c : Caller) (id : Opaque)
    (outcome : Outcome) (text : Text) (refs : List Ref) (key : Text)
    → Unique s
    → Counted s
    → After Counted (
        respond is_absolute refs_json sha256 s now later fresh_id fresh_conversation c id outcome
          text refs key)
unfolding respond
respond-After is_absolute refs_json sha256 s now later fresh_id fresh_conversation c id outcome text
      refs key u h =
    on_result (answerable s now c id) s err _ (λ e. h)
      (λ found q.
        let d = response_draft found.0 found.1 outcome text refs key in
        let sent =
          send_as is_absolute refs_json sha256 now fresh_id fresh_conversation c d none s in
        on_result sent.0 sent.1 err _
          (λ e.
            send_as-Counted is_absolute refs_json sha256 now fresh_id fresh_conversation c d none s
              h)
          (λ reply k. record {
            holds =
                retire_request-Counted later found.0 outcome sent.1
                  (send_as-In is_absolute refs_json sha256 now fresh_id fresh_conversation c d none
                    s found.0 (answerable-In s now c id found q))
                  (send_as-Unique is_absolute refs_json sha256 now fresh_id fresh_conversation c d
                    none s u)
                  (send_as-Counted is_absolute refs_json sha256 now fresh_id fresh_conversation c d
                    none s h);
          }))

-- Responding keeps the counters right, in both mailboxes and on every branch, where message ids are
-- unique.
pub respond-Counted :
    (is_absolute : Text → Bool) (refs_json : List Ref → Option Text) (sha256 : List ℕ → List ℕ)
    (s : Store) (now later : ℕ) (fresh_id fresh_conversation : Opaque) (c : Caller) (id : Opaque)
    (outcome : Outcome) (text : Text) (refs : List Ref) (key : Text)
    → Unique s
    → Counted s
    → Counted
        (respond is_absolute refs_json sha256 s now later fresh_id fresh_conversation c id outcome
          text refs key).1
respond-Counted is_absolute refs_json sha256 s now later fresh_id fresh_conversation c id outcome
      text refs key u h =
    (respond-After is_absolute refs_json sha256 s now later fresh_id fresh_conversation c id outcome
      text refs key u h).holds
