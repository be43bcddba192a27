-- ===== src/Resolve/Steps.antt =====
-- What each narrowing step of `resolve` keeps and why it drops the rest.
use vvagent.Base.{
  ℕ, ◌≤◌, ◌<◌, ◌≡◌, ◌≢◌, refl, sym, ap, subst, ◌∙◌, ◌⊎◌, inl, inr, ◌↔◌, Bool, true, false, List, [],
  ◌∷◌, none, some, arith, is_empty, ltb, length, keep, In, here, there, In-cons, In-nil, In-keep,
  In-keep_of, Bool-cases, Option-cases,
}
use vvagent.Address.Defs.{Address, shared_prefix}
use vvagent.Identity.Opaque.{Opaque, opaque_eq→≡, opaque_eq_refl}
use vvagent.Endpoint.{Endpoint}
use vvagent.Resolve.Defs.{
  Origin, prefer, is_other, is_mine, drop_self, own_scope, nearnesses, largest, is_at, keep_nearest,
  nearest,
}

-- How near an endpoint is to an address; one with no address is not near at all.
abbrev pub nearness : Address → Endpoint → ℕ
nearness from e = elim e.locator.address [ none ↦ 0 | some a ↦ shared_prefix a from ]

prefer-In : (p : Endpoint → Bool) (ms : List Endpoint) (e : Endpoint) → In e (prefer p ms) → In e ms
unfolding prefer
prefer-In p ms e m = elim (Bool-cases (ltb 1 (length ms))) [
  | inl many ↦ elim (Bool-cases (is_empty (keep p ms))) [
    | inl nobody ↦ rw (many, nobody) at m
    | inr somebody ↦ (In-keep p e ms (rw (many, somebody) at m)).0
  ]
  | inr few ↦ rw few at m
]

-- An endpoint is kept, or it is not preferred and all that are kept are.
prefer-dropped :
    (p : Endpoint → Bool) (ms : List Endpoint) (f : Endpoint)
    → In f ms
    → In f (prefer p ms) ⊎ ((p f ≡ false) × ((e : Endpoint) → In e (prefer p ms) → p e ≡ true))
unfolding prefer
prefer-dropped p ms f m = elim (Bool-cases (ltb 1 (length ms))) [
  | inl many ↦ elim (Bool-cases (is_empty (keep p ms))) [
    | inl nobody ↦ rw (many, nobody) (inl m)
    | inr somebody ↦
        rw (many, somebody)
          (elim (Bool-cases (p f)) [
            | inl good ↦ inl (In-keep_of p f ms m good)
            | inr bad ↦ inr (bad, λ e i. (In-keep p e ms i).1)
          ])
  ]
  | inr few ↦ rw few (inl m)
]

prefer_nonempty : (p : Endpoint → Bool) (ms : List Endpoint) → prefer p ms ≡ [] → ms ≡ []
unfolding prefer
prefer_nonempty p [] h = refl
prefer_nonempty p (m ∷ ms) h = ground arith

pub drop_self-In :
    (o : Origin) (ms : List Endpoint) (e : Endpoint) → In e (drop_self o ms) → In e ms
unfolding drop_self
drop_self-In o ms e m = elim (Option-cases o.endpoint) [
  | inl q ↦ rw (q, drop_self) at m
  | inr (me, q) ↦ prefer-In (is_other me) ms e (rw (q, drop_self) at m)
]

pub drop_self-dropped :
    (o : Origin) (ms : List Endpoint) (f : Endpoint)
    → In f ms
    → In f (drop_self o ms) ⊎ (o.endpoint ≡ some f.endpoint_id)
unfolding drop_self
drop_self-dropped o ms f m = elim (Option-cases o.endpoint) [
  | inl q ↦ rw (q, drop_self) (inl m)
  | inr (me, q) ↦ elim (prefer-dropped (is_other me) ms f m) [
    | inl kept ↦ rw (q, drop_self) (inl kept)
    | inr (same, _) ↦
        let e : f.endpoint_id ≡ me = opaque_eq→≡ f.endpoint_id me (ground arith) in
        inr (q ∙ ap some (sym e))
  ]
]

pub drop_self_nonempty : (o : Origin) (ms : List Endpoint) → drop_self o ms ≡ [] → ms ≡ []
unfolding drop_self
drop_self_nonempty o ms h = elim (Option-cases o.endpoint) [
  | inl q ↦ rw (q, drop_self) at h
  | inr (me, q) ↦ prefer_nonempty (is_other me) ms (rw (q, drop_self) at h)
]

pub own_scope-In :
    (o : Origin) (ms : List Endpoint) (e : Endpoint) → In e (own_scope o ms) → In e ms
unfolding own_scope
own_scope-In o ms e m = elim (Option-cases o.scope) [
  | inl q ↦ rw (q, own_scope) at m
  | inr (s, q) ↦ prefer-In (is_mine s) ms e (rw (q, own_scope) at m)
]

-- The first lives in the caller's runtime instance, and the second does not.
abbrev pub Closer : Origin → Endpoint → Endpoint → Type 0
Closer o e f =
    (o.scope ≡ some e.locator.runtime_instance_id) × (o.scope ≢ some f.locator.runtime_instance_id)

is_mine-false :
    (s : Opaque) (f : Endpoint) → is_mine s f ≡ false → some s ≢ some f.locator.runtime_instance_id
is_mine-false s f h e = ground (arith, opaque_eq_refl s)

pub own_scope-dropped :
    (o : Origin) (ms : List Endpoint) (f : Endpoint)
    → In f ms
    → In f (own_scope o ms) ⊎ ((e : Endpoint) → In e (own_scope o ms) → Closer o e f)
unfolding own_scope
own_scope-dropped o ms f m = elim (Option-cases o.scope) [
  | inl q ↦ rw (q, own_scope) (inl m)
  | inr (s, q) ↦ elim (prefer-dropped (is_mine s) ms f m) [
    | inl kept ↦ rw (q, own_scope) (inl kept)
    | inr (far, near) ↦ inr (λ e i.
        let mine : e.locator.runtime_instance_id ≡ s =
          opaque_eq→≡ _ s (near e (rw (q, own_scope) at i)) in
        (q ∙ ap some (sym mine), λ c. is_mine-false s f far (sym q ∙ c)))
  ]
]

pub own_scope_nonempty : (o : Origin) (ms : List Endpoint) → own_scope o ms ≡ [] → ms ≡ []
unfolding own_scope
own_scope_nonempty o ms h = elim (Option-cases o.scope) [
  | inl q ↦ rw (q, own_scope) at h
  | inr (s, q) ↦ prefer_nonempty (is_mine s) ms (rw (q, own_scope) at h)
]

nearness-le-largest :
    (from : Address) (ms : List Endpoint) (f : Endpoint)
    → In f ms
    → nearness from f ≤ largest (nearnesses from ms)
unfolding nearnesses largest
nearness-le-largest from [] f m = elim m [ ]
nearness-le-largest from (e ∷ ms) f m = elim (In-cons m) [
  | inl q ↦
      subst (λ (y : Endpoint). nearness from y ≤ largest (nearnesses from (e ∷ ms))) (sym q)
        (ground arith)
  | inr m' ↦ ground (arith, nearness-le-largest from ms f m')
]

largest_reached :
    (from : Address) (ms : List Endpoint)
    → 0 < largest (nearnesses from ms)
    → (e : Endpoint) × In e ms × (nearness from e ≡ largest (nearnesses from ms))
unfolding nearnesses largest
largest_reached from [] h = absurd (omega arith)
largest_reached from (e ∷ ms) h =
    elim (Bool-cases (ltb (nearness from e) (largest (nearnesses from ms)))) [
      | inl less ↦
          let (x, m, q) = largest_reached from ms (ground arith) in (x, there m, ground arith)
      | inr more ↦ (e, here, ground arith)
    ]

is_at_iff :
    (from : Address) (best : ℕ) (e : Endpoint)
    → 0 < best
    → (is_at from best e ≡ true) ↔ (nearness from e ≡ best)
is_at_iff from best e h = (λ k. ground arith, λ k. ground arith)

keep_nearest-In :
    (from : Address) (ms : List Endpoint) (e : Endpoint) → In e (keep_nearest from ms) → In e ms
unfolding keep_nearest
keep_nearest-In from ms e m = elim (Bool-cases (ltb 0 (largest (nearnesses from ms)))) [
  | inl some_near ↦ (In-keep (is_at from (largest (nearnesses from ms))) e ms (rw some_near at m)).0
  | inr nobody ↦ rw nobody at m
]

keep_nearest-dropped :
    (from : Address) (ms : List Endpoint) (f : Endpoint)
    → In f ms
    → In f (keep_nearest from ms)
      ⊎ ((e : Endpoint) → In e (keep_nearest from ms) → nearness from f < nearness from e)
unfolding keep_nearest
keep_nearest-dropped from ms f m =
    let best = largest (nearnesses from ms) in
    elim (Bool-cases (ltb 0 best)) [
      | inr nobody ↦ rw nobody (inl m)
      | inl some_near ↦
          let pos : 0 < best = ground arith in
          rw some_near (elim (Bool-cases (is_at from best f)) [
            | inl at_best ↦ inl (In-keep_of (is_at from best) f ms m at_best)
            | inr lower ↦ inr (λ e i.
                let reached = (is_at_iff from best e pos).0 (In-keep (is_at from best) e ms i).1 in
                let below = nearness-le-largest from ms f m in
                let apart : nearness from f ≢ best =
                  λ q. cc (lower, (is_at_iff from best f pos).1 q) in
                omega arith)
          ])
    ]

keep_nearest_nonempty : (from : Address) (ms : List Endpoint) → keep_nearest from ms ≡ [] → ms ≡ []
unfolding keep_nearest
keep_nearest_nonempty from ms h =
    let best = largest (nearnesses from ms) in
    elim (Bool-cases (ltb 0 best)) [
      | inr nobody ↦ rw nobody at h
      | inl some_near ↦
          let pos : 0 < best = ground arith in
          let (e, m, q) = largest_reached from ms pos in
          absurd (
            In-nil (
              subst (In e) (rw some_near at h)
                (In-keep_of (is_at from best) e ms m ((is_at_iff from best e pos).1 q))))
    ]

pub nearest-In : (o : Origin) (ms : List Endpoint) (e : Endpoint) → In e (nearest o ms) → In e ms
unfolding nearest
nearest-In o ms e m = elim (Option-cases o.address) [
  | inl q ↦ rw (q, nearest) at m
  | inr (from, q) ↦ elim (Bool-cases (ltb 1 (length ms))) [
    | inl many ↦ keep_nearest-In from ms e (rw many at (rw (q, nearest) at m))
    | inr few ↦ rw few at (rw (q, nearest) at m)
  ]
]

-- The first shares a longer prefix of its address with the caller than the second.
abbrev pub Nearer : Origin → Endpoint → Endpoint → Type 0
Nearer o e f = (from : Address) × (o.address ≡ some from) × (nearness from f < nearness from e)

pub nearest-dropped :
    (o : Origin) (ms : List Endpoint) (f : Endpoint)
    → In f ms
    → In f (nearest o ms) ⊎ ((e : Endpoint) → In e (nearest o ms) → Nearer o e f)
unfolding nearest
nearest-dropped o ms f m = elim (Option-cases o.address) [
  | inl q ↦ rw (q, nearest) (inl m)
  | inr (from, q) ↦ elim (Bool-cases (ltb 1 (length ms))) [
    | inr few ↦ rw (q, nearest, few) (inl m)
    | inl many ↦ elim (keep_nearest-dropped from ms f m) [
      | inl kept ↦ rw (q, nearest, many) (inl kept)
      | inr lower ↦ inr (λ e i. (from, q, lower e (rw many at (rw (q, nearest) at i))))
    ]
  ]
]

pub nearest_nonempty : (o : Origin) (ms : List Endpoint) → nearest o ms ≡ [] → ms ≡ []
unfolding nearest
nearest_nonempty o ms h = elim (Option-cases o.address) [
  | inl q ↦ rw (q, nearest) at h
  | inr (from, q) ↦ elim (Bool-cases (ltb 1 (length ms))) [
    | inr few ↦ rw few at (rw (q, nearest) at h)
    | inl many ↦ keep_nearest_nonempty from ms (rw many at (rw (q, nearest) at h))
  ]
]
