-- ===== src/Resolve/Narrowing.antt =====
-- What the steps of `resolve` leave of the candidates together: matches only, in the candidates'
-- order, never none of several, and why each other match was dropped.
use mathlib.Core.List.Sublist
use mathlib.Core.List.{Sublist}
use vvagent.Base.{
  ◌≡◌, subst, ◌⊎◌, inl, inr, Bool, List, [], ◌∷◌, some, ltb, length, is_empty, keep, In, In-nil,
  In-keep, In-keep_of, Bool-cases, Option-cases,
}
use vvagent.Selector.Defs.{Selector}
use vvagent.Endpoint.{Endpoint}
use vvagent.Address.Defs.{Address}
use vvagent.Resolve.Defs.{
  Origin, candidate, prefer, is_other, is_mine, drop_self, own_scope, nearnesses, largest, is_at,
  keep_nearest, nearest, narrowed,
}
use vvagent.Resolve.Steps.{
  Closer, Nearer, drop_self-In, drop_self-dropped, drop_self_nonempty, own_scope-In,
  own_scope-dropped, own_scope_nonempty, nearest-In, nearest-dropped, nearest_nonempty,
}
use vvagent.Resolve.Laws.{Matches, candidate_iff}

pub narrowed-In :
    (s : Selector) (all : List Endpoint) (o : Origin) (e : Endpoint)
    → In e (narrowed s all o)
    → In e all × Matches s e
unfolding narrowed
narrowed-In s all o e m =
    let (i, h) =
      In-keep (candidate s) e all (drop_self-In o _ e (own_scope-In o _ e (nearest-In o _ e m))) in
    (i, (candidate_iff s e).0 h)

pub narrowed_empty :
    (s : Selector) (all : List Endpoint) (o : Origin)
    → narrowed s all o ≡ []
    → (e : Endpoint) → In e all
    → ¬ Matches s e
unfolding narrowed
narrowed_empty s all o h e m k =
    let none_left = drop_self_nonempty o _ (own_scope_nonempty o _ (nearest_nonempty o _ h)) in
    In-nil (subst (In e) none_left (In-keep_of (candidate s) e all m ((candidate_iff s e).1 k)))

-- Why a match was not kept: it is the caller itself, or, next to what was kept, it lives outside the
-- caller's runtime instance or shares a shorter prefix of its address with the caller.
abbrev pub Outranked : Origin → Endpoint → Endpoint → Type 0
Outranked o e f = (o.endpoint ≡ some f.endpoint_id) ⊎ Closer o e f ⊎ Nearer o e f

pub narrowed-dropped :
    (s : Selector) (all : List Endpoint) (o : Origin) (e f : Endpoint)
    → In e (narrowed s all o)
    → In f all
    → Matches s f
    → In f (narrowed s all o) ⊎ Outranked o e f
unfolding narrowed
narrowed-dropped s all o e f chosen m k =
    elim (drop_self-dropped o _ f (In-keep_of (candidate s) f all m ((candidate_iff s f).1 k))) [
      | inr caller ↦ inr (inl caller)
      | inl kept ↦ elim (own_scope-dropped o _ f kept) [
        | inr closer ↦ inr (inr (inl (closer e (nearest-In o _ e chosen))))
        | inl kept' ↦ elim (nearest-dropped o _ f kept') [
          | inr nearer ↦ inr (inr (inr (nearer e chosen)))
          | inl left ↦ inl left
        ]
      ]
    ]

keep-Sublist : (p : Endpoint → Bool) (ms : List Endpoint) → Sublist (keep p ms) ms
keep-Sublist p [] = Sublist.refl []
keep-Sublist p (m ∷ ms) = elim (Bool-cases (p m)) [
  | inl e ↦ rw e (Sublist.cons-cons m (keep-Sublist p ms))
  | inr e ↦ rw e (Sublist.cons m (keep-Sublist p ms))
]

prefer-Sublist : (p : Endpoint → Bool) (ms : List Endpoint) → Sublist (prefer p ms) ms
unfolding prefer
prefer-Sublist p ms = elim (Bool-cases (ltb 1 (length ms))) [
  | inr few ↦ rw few (Sublist.refl ms)
  | inl many ↦ elim (Bool-cases (is_empty (keep p ms))) [
    | inl nobody ↦ rw (many, nobody) (Sublist.refl ms)
    | inr somebody ↦ rw (many, somebody) (keep-Sublist p ms)
  ]
]

drop_self-Sublist : (o : Origin) (ms : List Endpoint) → Sublist (drop_self o ms) ms
unfolding drop_self
drop_self-Sublist o ms = elim (Option-cases o.endpoint) [
  | inl q ↦ rw (q, drop_self) (Sublist.refl ms)
  | inr (me, q) ↦ rw (q, drop_self) (prefer-Sublist (is_other me) ms)
]

own_scope-Sublist : (o : Origin) (ms : List Endpoint) → Sublist (own_scope o ms) ms
unfolding own_scope
own_scope-Sublist o ms = elim (Option-cases o.scope) [
  | inl q ↦ rw (q, own_scope) (Sublist.refl ms)
  | inr (mine, q) ↦ rw (q, own_scope) (prefer-Sublist (is_mine mine) ms)
]

keep_nearest-Sublist : (from : Address) (ms : List Endpoint) → Sublist (keep_nearest from ms) ms
unfolding keep_nearest
keep_nearest-Sublist from ms =
    let best = largest (nearnesses from ms) in
    elim (Bool-cases (ltb 0 best)) [
      | inl near ↦ rw near (keep-Sublist (is_at from best) ms)
      | inr nobody ↦ rw nobody (Sublist.refl ms)
    ]

nearest-Sublist : (o : Origin) (ms : List Endpoint) → Sublist (nearest o ms) ms
unfolding nearest
nearest-Sublist o ms = elim (Option-cases o.address) [
  | inl q ↦ rw (q, nearest) (Sublist.refl ms)
  | inr (from, q) ↦ elim (Bool-cases (ltb 1 (length ms))) [
    | inl many ↦ rw (q, nearest, many) (keep_nearest-Sublist from ms)
    | inr few ↦ rw (q, nearest, few) (Sublist.refl ms)
  ]
]

pub narrowed-Sublist :
    (s : Selector) (all : List Endpoint) (o : Origin) → Sublist (narrowed s all o) all
unfolding narrowed
narrowed-Sublist s all o =
    let ms = keep (candidate s) all in
    let others = drop_self o ms in
    let ours = own_scope o others in
    Sublist.trans (nearest-Sublist o ours) (
      Sublist.trans (own_scope-Sublist o others)
        (Sublist.trans (drop_self-Sublist o ms) (keep-Sublist (candidate s) all)))
