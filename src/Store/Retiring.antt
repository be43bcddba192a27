-- ===== src/Store/Retiring.antt =====
-- Responding and confirming an interrupt keep the counters right.
use vvagent.Base.{
  ℕ, ◌≡◌, refl, sym, ap, subst, ◌∙◌, inl, inr, Bool, arith, if◌then◌else◌, ltb, len, In, Bool-cases,
  and-eq-true,
}
use vvagent.Error.{err}
use vvagent.Identity.Opaque.{Opaque, opaque_eq→≡}
use vvagent.Message.Outcome.{Outcome}
use vvagent.Message.State.{consumed}
use vvagent.Store.Tables.{Store, EndpointRow, Message, is_endpoint, is_message, load_message}
use vvagent.Store.Rows.{update, changed, In-update, changed-none}
use vvagent.Store.Receive.{release}
use vvagent.Store.Respond.{
  retire_request, is_open, discharge, confirmable, confirm, apply_confirm, confirm_interrupt,
}
use vvagent.Store.Branches.{After, on_result}
use vvagent.Store.Counting.{Counted, CountedBut, RowCounted, update-Counted, recount-Counted}
use vvagent.Store.Settling.{Unique, update-CountedBut, load-In}

apply_confirm-Counted :
    (s : Store) (now : ℕ) (incarnation : Opaque) (m : Message)
    → In m s.messages
    → Unique s
    → Counted s
    → Counted (apply_confirm s now incarnation m)
unfolding apply_confirm
apply_confirm-Counted s now incarnation m i u c =
    let hit = confirmable s m.message_id incarnation in
    elim (Bool-cases (ltb 0 (changed hit s.messages))) [
      | inl found ↦ rw found (
          recount-Counted m.to_endpoint (record s { messages = update hit confirm s.messages })
            (update-CountedBut hit confirm s m.to_endpoint
              (λ n j e.
                let same : n ≡ m =
                  u n m j i (opaque_eq→≡ n.message_id m.message_id (ground arith)) in
                let to = ap (λ (x : Message). x.to_endpoint) same in (to, to, refl))
              c))
      | inr none_found ↦ rw none_found c
    ]

confirm-After :
    (s : Store) (now : ℕ) (id incarnation : Opaque)
    → Unique s
    → Counted s
    → After Counted (confirm_interrupt s now id incarnation)
unfolding confirm_interrupt
confirm-After s now id incarnation u c =
    on_result (load_message s id) s err _ (λ e. c)
      (λ m q. record { holds = apply_confirm-Counted s now incarnation m (load-In s id m q).0 u c })

-- Confirming an interrupt keeps the counters right, where message ids are unique.
pub confirm_interrupt-Counted :
    (s : Store) (now : ℕ) (id incarnation : Opaque)
    → Unique s
    → Counted s
    → Counted (confirm_interrupt s now id incarnation).1
confirm_interrupt-Counted s now id incarnation u c = (confirm-After s now id incarnation u c).holds

-- The counters that a recount replaces do not matter.
recount-update-CountedBut :
    (id : Opaque) (f : EndpointRow → EndpointRow) (s : Store)
    → CountedBut id s
    → ((e : EndpointRow) → (f e).endpoint_id ≡ e.endpoint_id)
    → CountedBut id (record s { endpoints = update (is_endpoint id) f s.endpoints })
recount-update-CountedBut id f s h k e i far =
    let (x, j, q) = In-update (is_endpoint id) f e s.endpoints i in
    elim (Bool-cases (is_endpoint id x)) [
      | inl mine ↦
          let same : e ≡ f x = q ∙ ap (λ (b : Bool). if b then f x else x) mine in
          absurd (
            far (
              ap (λ (y : EndpointRow). y.endpoint_id) same
              ∙ k x
              ∙ opaque_eq→≡ x.endpoint_id id mine))
      | inr other ↦
          let same : e ≡ x = q ∙ ap (λ (b : Bool). if b then f x else x) other in
          subst (RowCounted s) (sym same)
            (h x j (λ z. far (ap (λ (y : EndpointRow). y.endpoint_id) same ∙ z)))
    ]

pub retire_request-Counted :
    (now : ℕ) (m : Message) (outcome : Outcome) (s : Store)
    → In m s.messages
    → Unique s
    → Counted s
    → Counted (retire_request now m outcome s)
unfolding retire_request
retire_request-Counted now m outcome s i u c =
    let gone = record s {
      messages = update (is_open m.message_id) (release consumed) s.messages;
    } in
    elim (Bool-cases (ltb 0 (changed (is_open m.message_id) s.messages))) [
      | inl pending ↦ rw pending (
          recount-Counted m.to_endpoint
            (record gone {
              endpoints =
                  update (is_endpoint m.to_endpoint) (discharge (len m.text)) gone.endpoints;
            })
            (recount-update-CountedBut m.to_endpoint (discharge (len m.text)) gone
              (update-CountedBut (is_open m.message_id) (release consumed) s m.to_endpoint
                (λ n j e.
                  let same : n ≡ m = u n m j i (
                    opaque_eq→≡ n.message_id m.message_id
                      (and-eq-true (is_message m.message_id n) _ e).0) in
                  let to = ap (λ (x : Message). x.to_endpoint) same in (to, to, refl))
                c)
              (λ e. refl)))
      | inr shut ↦ rw shut (
          update-Counted (is_open m.message_id) (release consumed) s
            (λ id n j e. cc (e, changed-none (is_open m.message_id) s.messages (ground arith) n j))
            c)
    ]
