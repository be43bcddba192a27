-- ===== src/Resolve/Choice.antt =====
-- The promises of `resolve`, on its three outcomes.
use mathlib.Core.List.{Sublist}
use vvagent.Base.{
  codes, ◌≤◌, ◌≡◌, refl, sym, subst, ◌∙◌, ◌⊎◌, inl, inr, ◌↔◌, List, [], ◌∷◌, map, take, none, some,
  arith, length, find, find-In, In, here, In-cons, In-nil, Option-cases,
}
use vvagent.Error.{ok, err, MeshError, new, agent_not_found, agent_ambiguous}
use vvagent.Identity.Opaque.{Opaque, opaque_eq, opaque_eq→≡}
use vvagent.Selector.Defs.{Selector}
use vvagent.Endpoint.{Endpoint, qualified_name}
use vvagent.Resolve.Defs.{Origin, settle, narrowed, resolve}
use vvagent.Resolve.Steps.{Closer, Nearer}
use vvagent.Resolve.Narrowing.{
  Outranked, narrowed-In, narrowed_empty, narrowed-dropped, narrowed-Sublist,
}
use vvagent.Resolve.Laws.{Matches}

settle_ok : (ms : List Endpoint) (e : Endpoint) → settle ms ≡ ok e → ms ≡ e ∷ []
unfolding settle
settle_ok [] e h = cc
settle_ok (m ∷ []) e h = ground arith
settle_ok (m ∷ n ∷ ms) e h = cc

resolve_by_match :
    (s : Selector) (all : List Endpoint) (o : Origin)
    → s.endpoint ≡ none
    → resolve s all o ≡ settle (narrowed s all o)
unfolding resolve
resolve_by_match s all o h = ground arith

resolve_by_id_sound :
    (s : Selector) (all : List Endpoint) (o : Origin) (id : Opaque) (e : Endpoint)
    → s.endpoint ≡ some id
    → resolve s all o ≡ ok e
    → In e all × (e.endpoint_id ≡ id)
unfolding resolve
resolve_by_id_sound s all o id e q h =
    let found : find (λ e. opaque_eq e.endpoint_id id) all ≡ some e = ground arith in
    let (m, k) = find-In (λ (e : Endpoint). opaque_eq e.endpoint_id id) all e found in
    (m, opaque_eq→≡ e.endpoint_id id k)

settle_not_found :
    (ms : List Endpoint) (m : MeshError) → settle ms ≡ err m → m.code ≡ agent_not_found → ms ≡ []
unfolding settle
settle_not_found [] m h c = refl
settle_not_found (e ∷ []) m h c = cc
settle_not_found (e ∷ f ∷ ms) m h c = ground arith

settle_ambiguous :
    (ms : List Endpoint) (m : MeshError)
    → settle ms ≡ err m
    → m.code ≡ agent_ambiguous
    → (2 ≤ length ms) × (m.candidates ≡ take 8 (map qualified_name ms))
unfolding settle
settle_ambiguous [] m h c = ground arith
settle_ambiguous (e ∷ []) m h c = cc
settle_ambiguous (e ∷ f ∷ ms) m h c = ground arith

-- The endpoint that is returned is a candidate. It has the id that the selector gives; a selector
-- without an id matches it, in scope and by alias or address.
pub resolve_sound :
    (s : Selector) (all : List Endpoint) (o : Origin) (e : Endpoint)
    → resolve s all o ≡ ok e
    → In e all
      × ((id : Opaque) → s.endpoint ≡ some id → e.endpoint_id ≡ id)
      × (s.endpoint ≡ none → Matches s e)
resolve_sound s all o e h = elim (Option-cases s.endpoint) [
  | inr (id, q) ↦ let (m, k) = resolve_by_id_sound s all o id e q h in (m, λ id' r. cc, λ n. cc)
  | inl n ↦
      let only = settle_ok (narrowed s all o) e (sym (resolve_by_match s all o n) ∙ h) in
      let (m, k) = narrowed-In s all o e (subst (In e) (sym only) here) in (m, λ id r. cc, λ _. k)
]

-- A selector without an id is not found exactly when no candidate matches it, wherever the caller
-- is: no step of the narrowing loses the last match.
pub resolve_not_found :
    (s : Selector) (all : List Endpoint) (o : Origin)
    → s.endpoint ≡ none
    → ((m : MeshError) × (resolve s all o ≡ err m) × (m.code ≡ agent_not_found))
      ↔ ((e : Endpoint) → In e all → ¬ Matches s e)
resolve_not_found s all o n = (
  λ (m, h, c).
      narrowed_empty s all o
        (settle_not_found (narrowed s all o) m (sym (resolve_by_match s all o n) ∙ h) c),
  λ none_match. lost (narrowed s all o) refl none_match,
)
  where
    lost :
        (ms : List Endpoint)
        → narrowed s all o ≡ ms
        → ((e : Endpoint) → In e all → ¬ Matches s e)
        → (m : MeshError) × (resolve s all o ≡ err m) × (m.code ≡ agent_not_found)
    lost [] q h = (
      new agent_not_found (codes "no endpoint matches that selector"),
      rw (resolve_by_match s all o n, q) (unfold settle in refl),
      refl,
    )
    lost (e ∷ ms) q h =
        let (m, k) = narrowed-In s all o e (subst (In e) (sym q) here) in absurd (h e m k)

-- One match is never picked silently from several: any other match is the caller itself, or lives
-- outside the caller's runtime instance while the result lives in it, or shares a shorter prefix of
-- its address with the caller than the result does.
pub resolve_prefers :
    (s : Selector) (all : List Endpoint) (o : Origin) (e f : Endpoint)
    → s.endpoint ≡ none
    → resolve s all o ≡ ok e
    → In f all
    → Matches s f
    → (f ≡ e) ⊎ (o.endpoint ≡ some f.endpoint_id) ⊎ Closer o e f ⊎ Nearer o e f
resolve_prefers s all o e f n h m k =
    let only : narrowed s all o ≡ e ∷ [] =
      settle_ok (narrowed s all o) e (sym (resolve_by_match s all o n) ∙ h) in
    elim (narrowed-dropped s all o e f (subst (In e) (sym only) here) m k) [
      | inr why ↦ inr why
      | inl left ↦ elim (In-cons (subst (In f) only left)) [
        | inl q ↦ inl q
        | inr bad ↦ absurd (In-nil bad)
      ]
    ]

-- An ambiguous selector without an id is answered with the names of the matching endpoints that
-- narrowing leaves, at least two of them: the first eight names, in the order of the known
-- endpoints, each of these at most once. Next to any endpoint that is left, a match that is not left
-- is the caller itself, or lives outside the caller's runtime instance while the one left lives in
-- it, or shares a shorter prefix of its address with the caller than the one left does.
pub resolve_ambiguous :
    (s : Selector) (all : List Endpoint) (o : Origin) (m : MeshError)
    → s.endpoint ≡ none
    → resolve s all o ≡ err m
    → m.code ≡ agent_ambiguous
    → (left : List Endpoint) × Sublist left all
      × (2 ≤ length left)
      × ((e : Endpoint) → In e left → Matches s e)
      × ((e f : Endpoint) → In e left → In f all → Matches s f → In f left ⊎ Outranked o e f)
      × (m.candidates ≡ take 8 (map qualified_name left))
resolve_ambiguous s all o m n h c =
    let left = narrowed s all o in
    let (many, names) = settle_ambiguous left m (sym (resolve_by_match s all o n) ∙ h) c in
    (
      left,
      narrowed-Sublist s all o,
      many,
      λ e i. (narrowed-In s all o e i).1,
      λ e f i j k. narrowed-dropped s all o e f i j k,
      names,
    )
