-- ===== src/Store/Sweeping.antt =====
-- Sweeping keeps the counters right.
use vvagent.Base.{
  ℕ, ◌≡◌, ◌≢◌, refl, sym, ap, subst, ◌∙◌, ◌⊎◌, inl, inr, Bool, true, false, ◌&&◌, List, [], ◌∷◌,
  arith, if◌then◌else◌, ltb, any, any-false_iff, In, In-cons, Bool-cases, and-eq-true,
}
use vvagent.Identity.Opaque.{Opaque, opaque_eq, opaque_eq→≡, opaque_eq_refl}
use vvagent.Message.State.{expired}
use vvagent.Store.Tables.{Store, EndpointRow, Message, is_endpoint}
use vvagent.Store.Rows.{update, changed, In-update, In-update_of, changed-none, any-true}
use vvagent.Store.Queries.{counted, recount}
use vvagent.Store.Receive.{reclaim, set_state}
use vvagent.Store.Ending.{overdue, is_expired, recount_each, sweep}
use vvagent.Store.Counting.{
  Counted, RowCounted, update-SameLoad, same_row, update-Counted, reclaim-Counted,
}

-- Each row is right, or has an expired message among those still to visit.
abbrev Visits : List Message → Store → Type 0
Visits ms s =
    (e : EndpointRow)
    → In e s.endpoints
    → RowCounted s e
      ⊎ ((m : Message) × In m ms × (is_expired m ≡ true) × (m.to_endpoint ≡ e.endpoint_id))

-- The row of an endpoint after a recount: recounted itself, or as it was.
recount-In :
    (id : Opaque) (s : Store) (e : EndpointRow)
    → In e (recount id s).endpoints
    → RowCounted (recount id s) e ⊎ (In e s.endpoints × (e.endpoint_id ≢ id))
unfolding recount
recount-In id s e i =
    let (x, m, q) = In-update (is_endpoint id) (counted s) e s.endpoints i in
    elim (Bool-cases (is_endpoint id x)) [
      | inl mine ↦
          let same : e ≡ counted s x = q ∙ ap (λ (b : Bool). if b then counted s x else x) mine in
          inl (subst (RowCounted (recount id s)) (sym same) (refl, refl))
      | inr other ↦
          let same : e ≡ x = q ∙ ap (λ (b : Bool). if b then counted s x else x) other in
          inr (
            subst (λ (y : EndpointRow). In y s.endpoints × (y.endpoint_id ≢ id)) (sym same)
              (m, λ k. cc (other, ap (λ (y : Opaque). opaque_eq y id) k, opaque_eq_refl id)))
    ]

recount_step :
    (m : Message) (ms : List Message) (s : Store)
    → Visits (m ∷ ms) s
    → Visits ms (if is_expired m then recount m.to_endpoint s else s)
recount_step m ms s v = elim (Bool-cases (is_expired m)) [
  | inl over ↦ rw over (λ e i. elim (recount-In m.to_endpoint s e i) [
    | inl right ↦ inl right
    | inr (j, far) ↦ elim (v e j) [
      | inl right ↦ inl (unfold recount in right)
      | inr (n, k, x, to) ↦ elim (In-cons k) [
        | inl q ↦ absurd (far (sym to ∙ ap (λ (y : Message). y.to_endpoint) q))
        | inr k' ↦ inr (n, k', x, to)
      ]
    ]
  ])
  | inr live ↦ rw live (λ e i. elim (v e i) [
    | inl right ↦ inl right
    | inr (n, k, x, to) ↦ elim (In-cons k) [
      | inl q ↦ cc (x, ap is_expired q, live)
      | inr k' ↦ inr (n, k', x, to)
    ]
  ])
]

recount_each-Counted : (ms : List Message) (s : Store) → Visits ms s → Counted (recount_each ms s)
unfolding recount_each
recount_each-Counted [] s v =
    λ e i. elim (v e i) [ inl right ↦ right | inr (n, k, x, to) ↦ elim k [ ] ]
recount_each-Counted (m ∷ ms) s v = recount_each-Counted ms _ (recount_step m ms s v)

-- After the overdue messages are marked, each row is right or has an expired message.
retired-Visits :
    (now : ℕ) (s : Store)
    → Counted s
    → let retired = record s { messages = update (overdue now) (set_state expired) s.messages } in
      Visits retired.messages retired
retired-Visits now s c e i =
    let ms = update (overdue now) (set_state expired) s.messages in
    let mine : Message → Bool = λ m. is_expired m && opaque_eq m.to_endpoint e.endpoint_id in
    elim (Bool-cases (any mine ms)) [
      | inl some_over ↦
          let (m, k, q) = any-true mine ms some_over in
          let (x, to) = and-eq-true (is_expired m) (opaque_eq m.to_endpoint e.endpoint_id) q in
          inr (m, k, x, opaque_eq→≡ m.to_endpoint e.endpoint_id to)
      | inr none_over ↦ inl (
          same_row s (record s { messages = ms }) e
            (update-SameLoad (overdue now) (set_state expired) s e.endpoint_id (λ m j o.
              let there' : In (set_state expired m) ms =
                subst (λ (b : Bool). In (if b then set_state expired m else m) ms) o
                  (In-update_of (overdue now) (set_state expired) m s.messages j) in
              let off : opaque_eq m.to_endpoint e.endpoint_id ≡ false =
                (any-false_iff mine ms).0 none_over (set_state expired m) there' in
              (ground (arith, off), refl)))
            (c e i))
    ]

-- A sweep keeps the counters right.
pub sweep-Counted : (now : ℕ) (s : Store) → Counted s → Counted (sweep now s).1
unfolding sweep
sweep-Counted now s h =
    let requeued = reclaim now s in
    let ready = reclaim-Counted now s h in
    elim (Bool-cases (ltb 0 (changed (overdue now) requeued.messages))) [
      | inl some_over ↦ rw some_over (recount_each-Counted _ _ (retired-Visits now requeued ready))
      | inr no_over ↦ rw no_over (
          update-Counted (overdue now) (set_state expired) requeued
            (λ id m j o. cc (o, changed-none (overdue now) requeued.messages (ground arith) m j))
            ready)
    ]
