-- ===== src/Store/Lifecycle.antt =====
-- Binding, unbinding and changing endpoints keep the counters right and the message ids unique.
use vvagent.Base.{
  ℕ, ◌≡◌, ◌≢◌, refl, sym, subst, ◌∙◌, inl, inr, Bool, true, ◌&&◌, ◌==◌, List, [], ◌∷◌, ◌++◌, Option,
  arith, find, is_some, leb, length, keep, In, here, In-cons, In-nil, In-append, Bool-cases, there,
}
use vvagent.Identity.AgentState.{AgentState}
use vvagent.Identity.Opaque.{Opaque, opaque_eq, opaque_eq→≡}
use vvagent.Identity.RuntimeKind.{RuntimeKind, kind_eq}
use vvagent.Message.State.{queued}
use vvagent.Store.Tables.{Store, EndpointRow, Message, find_endpoint, is_endpoint}
use vvagent.Store.Rows.{update, changed, total, In-update}
use vvagent.Store.Queries.{occupies}
use vvagent.Store.Receive.{release, is_claimed}
use vvagent.Store.Binding.{Binding, bind, existing_slot, max_endpoints, in_slot}
use vvagent.Store.Unbinding.{
  unbind, ensure_local_user, bound_as, go_offline, held_by, local_user_alias, local_user_instance,
}
use vvagent.Store.Directory.{change_endpoint, set_state, enter}
use vvagent.Store.Branches.{After, on_if, on_option}
use vvagent.Store.Counting.{Counted, RowCounted, update-Counted}
use vvagent.Store.Settling.{Unique, update-Unique}

-- The change leaves who the endpoint is and what it is charged.
abbrev pub KeepsCharge : (EndpointRow → EndpointRow) → Type 0
KeepsCharge f =
    (e : EndpointRow)
    → ((f e).endpoint_id ≡ e.endpoint_id)
      × ((f e).pending_count ≡ e.pending_count)
      × ((f e).pending_bytes ≡ e.pending_bytes)

pub endpoints-Counted :
    (p : EndpointRow → Bool) (f : EndpointRow → EndpointRow) (s : Store)
    → KeepsCharge f
    → Counted s
    → Counted (record s { endpoints = update p f s.endpoints })
endpoints-Counted p f s k h e i =
    let (x, j, q) = In-update p f e s.endpoints i in
    subst (RowCounted s) (sym q) (elim (Bool-cases (p x)) [
      | inl yes' ↦
          let (id, count, size) = k x in
          let (right_count, right_size) = h x j in
          rw yes' (rw id (count ∙ right_count, size ∙ right_size))
      | inr no' ↦ rw no' (h x j)
    ])

-- No message is addressed to this endpoint.
abbrev pub NoMail : Opaque → Store → Type 0
NoMail id s = (m : Message) → In m s.messages → m.to_endpoint ≢ id

none_kept :
    (id : Opaque) (ms : List Message)
    → ((m : Message) → In m ms → m.to_endpoint ≢ id)
    → (length (keep (occupies id) ms) ≡ 0) × (total (occupies id) (λ m. m.bytes) ms ≡ 0)
none_kept id [] h = (refl, refl)
none_kept id (m ∷ ms) h =
    let rest = none_kept id ms (λ n i. h n (there i)) in
    elim (Bool-cases (opaque_eq m.to_endpoint id)) [
      | inl e ↦ absurd (h m here (opaque_eq→≡ m.to_endpoint id e))
      | inr e ↦ ground arith
    ]

-- A new endpoint with empty counters and no mail.
pub append-Counted :
    (row : EndpointRow) (s : Store)
    → row.pending_count ≡ 0
    → row.pending_bytes ≡ 0
    → NoMail row.endpoint_id s
    → Counted s
    → Counted (record s { endpoints = s.endpoints ++ row ∷ [] })
append-Counted row s count size n h e i = elim (In-append s.endpoints i) [
  | inl old ↦ h e old
  | inr new ↦ elim (In-cons new) [
    | inl q ↦
        let (no_count, no_bytes) = none_kept row.endpoint_id s.messages n in
        subst (RowCounted s) (sym q) (count ∙ sym no_count, size ∙ sym no_bytes)
    | inr nil ↦ absurd (In-nil nil)
  ]
]

-- Message ids are unique, and the counters are right.
abbrev pub Sound : Store → Type 0
Sound s = Unique s × Counted s

bind-After :
    (sha256 : List ℕ → List ℕ) (s : Store) (now : ℕ) (b : Binding) (token_bytes : Option (List ℕ))
    (incarnation fresh : Opaque)
    → NoMail fresh s
    → Sound s
    → After Sound (bind sha256 s now b token_bytes incarnation fresh)
unfolding bind
bind-After sha256 s now b token_bytes incarnation fresh n (u, h) =
    on_if (kind_eq b.locator.kind RuntimeKind.peer) (λ q. record { holds = (u, h) })
      (λ q.
        on_option token_bytes _ _ (λ k. record { holds = (u, h) })
          (λ random k.
            on_option (existing_slot s b) _ _
              (λ j.
                on_if (leb max_endpoints (length s.endpoints)) (λ q'. record { holds = (u, h) })
                  (λ q'.
                    on_if (is_some (find_endpoint s fresh)) (λ q''. record { holds = (u, h) })
                      (λ q''. record { holds = (u, append-Counted _ s refl refl n h) })))
              (λ e j. record {
                holds = (
                  u,
                  endpoints-Counted (is_endpoint e.endpoint_id) _ s (λ x. (refl, refl, refl)) h,
                );
              })))

-- A slot that is taken again keeps its charge, and a new one has none.
pub bind-Sound :
    (sha256 : List ℕ → List ℕ) (s : Store) (now : ℕ) (b : Binding) (token_bytes : Option (List ℕ))
    (incarnation fresh : Opaque)
    → NoMail fresh s
    → Sound s
    → Sound (bind sha256 s now b token_bytes incarnation fresh).1
bind-Sound sha256 s now b token_bytes incarnation fresh n h =
    (bind-After sha256 s now b token_bytes incarnation fresh n h).holds

-- Claims that go back on the queue are pending before and after.
pub requeue-Sound :
    (p : Message → Bool) (s : Store)
    → ((m : Message) → p m ≡ true → is_claimed m.state ≡ true)
    → Sound s
    → Sound (record s { messages = update p (release queued) s.messages })
requeue-Sound p s claims (u, h) = (
  update-Unique p (release queued) s (λ m. refl) u,
  update-Counted p (release queued) s (λ id m i e. let held = claims m e in ground arith) h,
)

pub unbind-Sound :
    (s : Store) (now : ℕ) (id incarnation : Opaque) → Sound s → Sound (unbind s now id incarnation)
unfolding unbind
unbind-Sound s now id incarnation h =
    let mine : Message → Bool = λ m. opaque_eq m.to_endpoint id && held_by incarnation m in
    let requeued = record s { messages = update mine (release queued) s.messages } in
    let (u, c) = requeue-Sound mine s (λ m e. ground arith) h in
    elim (Bool-cases (changed (bound_as id incarnation) s.endpoints == 0)) [
      | inl stale ↦ rw stale h
      | inr live ↦ rw live (
        u,
        endpoints-Counted (bound_as id incarnation) go_offline requeued (λ x. (refl, refl, refl)) c,
      )
    ]

local_user-After :
    (s : Store) (now : ℕ) (fresh : Opaque)
    → NoMail fresh s
    → Sound s
    → After Sound (ensure_local_user s now fresh)
unfolding ensure_local_user
local_user-After s now fresh n (u, h) =
    on_option (find (in_slot local_user_alias local_user_instance) s.endpoints) _ _
      (λ k.
        on_if (is_some (find_endpoint s fresh)) (λ q. record { holds = (u, h) })
          (λ q. record { holds = (u, append-Counted _ s refl refl n h) }))
      (λ e k.
        on_option e.incarnation_id _ _
          (λ j. record {
            holds =
                (u, endpoints-Counted (is_endpoint e.endpoint_id) _ s (λ x. (refl, refl, refl)) h);
          })
          (λ incarnation j. record { holds = (u, h) }))

pub ensure_local_user-Sound :
    (s : Store) (now : ℕ) (fresh : Opaque)
    → NoMail fresh s
    → Sound s
    → Sound (ensure_local_user s now fresh).1
ensure_local_user-Sound s now fresh n h = (local_user-After s now fresh n h).holds

change-After :
    (f : EndpointRow → EndpointRow) (s : Store) (id : Opaque)
    → KeepsCharge f
    → Sound s
    → After Sound (change_endpoint f s id)
unfolding change_endpoint
change-After f s id k (u, h) =
    on_if (changed (is_endpoint id) s.endpoints == 0) (λ q. record { holds = (u, h) })
      (λ q. record { holds = (u, endpoints-Counted (is_endpoint id) f s k h) })

-- An update of an endpoint that leaves its charge, as those of its address, policy, capabilities.
pub change_endpoint-Sound :
    (f : EndpointRow → EndpointRow) (s : Store) (id : Opaque)
    → KeepsCharge f
    → Sound s
    → Sound (change_endpoint f s id).1
change_endpoint-Sound f s id k h = (change-After f s id k h).holds

set_state-After :
    (s : Store) (id : Opaque) (state : AgentState) → Sound s → After Sound (set_state s id state)
unfolding set_state
set_state-After s id state (u, h) =
    on_option
      (find_endpoint (record s { endpoints = update (is_endpoint id) (enter state) s.endpoints })
        id)
      _ _ (λ k. record { holds = (u, h) })
      (λ e k. record {
        holds = (u, endpoints-Counted (is_endpoint id) (enter state) s (λ x. (refl, refl, refl)) h);
      })

pub set_state-Sound :
    (s : Store) (id : Opaque) (state : AgentState) → Sound s → Sound (set_state s id state).1
set_state-Sound s id state h = (set_state-After s id state h).holds
