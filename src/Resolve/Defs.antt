-- ===== src/Resolve/Defs.antt =====
-- `Origin` and `resolve`, a function for each numbered step of the source.
use vvagent.Base.{
  ℕ, max, Bool, true, false, ◌&&◌, ◌||◌, not, List, [], ◌∷◌, map, Option, none, some, if◌then◌else◌,
  codes, is_empty, is_some_and, option_eq, ltb, ◌==◌, length, keep, find, text_eq,
}
use vvagent.Error.{Result, ok, err, ok_or, new, with_candidates, agent_not_found, agent_ambiguous}
use vvagent.Address.Defs.{Address, satisfies, shared_prefix}
use vvagent.Identity.Opaque.{Opaque, opaque_eq}
use vvagent.Identity.Alias.{Alias, alias_eq}
use vvagent.Identity.RuntimeKind.{kind_eq}
use vvagent.Selector.Defs.{Selector, QualifiedScope}
use vvagent.Endpoint.{Endpoint, qualified_name}

pub record Origin : Type 0 where
  pub scope : Option Opaque
  pub address : Option Address
  pub endpoint : Option Opaque

unfoldable pub scope_admits : Option QualifiedScope → Endpoint → Bool
scope_admits none e = true
scope_admits (some s) e =
    kind_eq e.locator.kind s.kind
    && option_eq text_eq e.locator.instance_name (some s.instance_name)

unfoldable pub by_alias : Option Alias → Endpoint → Bool
by_alias wanted e = is_some_and wanted (λ a. option_eq alias_eq e.alias (some a))

unfoldable pub by_address : Option Address → Endpoint → Bool
by_address none e = false
by_address (some pattern) e = is_some_and e.locator.address (λ a. satisfies a pattern)

-- Steps 2 and 3.
unfoldable pub candidate : Selector → Endpoint → Bool
unfolding scope_admits by_alias by_address
candidate s e = scope_admits s.scope e && (by_alias s.alias e || by_address s.address e)

-- Several matches are narrowed to the preferred ones, unless there are none of these.
unfoldable pub prefer : (Endpoint → Bool) → List Endpoint → List Endpoint
prefer p ms = if ltb 1 (length ms) then if is_empty (keep p ms) then ms else keep p ms else ms

abbrev pub is_other : Opaque → Endpoint → Bool
is_other me e = not (opaque_eq e.endpoint_id me)

abbrev pub is_mine : Opaque → Endpoint → Bool
is_mine scope e = opaque_eq e.locator.runtime_instance_id scope

-- Step 4: somebody else in the region.
unfoldable pub drop_self : Origin → List Endpoint → List Endpoint
unfolding prefer
drop_self o ms = elim o.endpoint [ none ↦ ms | some me ↦ prefer (is_other me) ms ]

-- Step 5: the caller's own runtime instance.
unfoldable pub own_scope : Origin → List Endpoint → List Endpoint
unfolding prefer
own_scope o ms = elim o.scope [ none ↦ ms | some scope ↦ prefer (is_mine scope) ms ]

unfoldable pub nearnesses : Address → List Endpoint → List ℕ
nearnesses from [] = []
nearnesses from (e ∷ es) = elim e.locator.address [
  | none ↦ nearnesses from es
  | some a ↦ shared_prefix a from ∷ nearnesses from es
]

-- `max().unwrap_or(0)`
unfoldable pub largest : List ℕ → ℕ
largest [] = 0
largest (n ∷ ns) = max n (largest ns)

abbrev pub is_at : Address → ℕ → Endpoint → Bool
is_at from best e = is_some_and e.locator.address (λ a. shared_prefix a from == best)

unfoldable pub keep_nearest : Address → List Endpoint → List Endpoint
unfolding nearnesses largest
keep_nearest from ms =
    let best = largest (nearnesses from ms) in if ltb 0 best then keep (is_at from best) ms else ms

-- Step 6: the caller's neighbourhood.
unfoldable pub nearest : Origin → List Endpoint → List Endpoint
nearest o ms = elim o.address [
  | none ↦ ms
  | some from ↦ if ltb 1 (length ms) then keep_nearest from ms else ms
]

unfoldable pub settle : List Endpoint → Result Endpoint
settle [] = err (new agent_not_found (codes "no endpoint matches that selector"))
settle (e ∷ []) = ok e
settle (e ∷ f ∷ es) = err (
    with_candidates
      (new agent_ambiguous (
        codes
          "several endpoints match; use a fuller address, the runtime-qualified form, or an endpoint id"))
      (map qualified_name (e ∷ f ∷ es)))

unfoldable pub narrowed : Selector → List Endpoint → Origin → List Endpoint
narrowed s all o = nearest o (own_scope o (drop_self o (keep (candidate s) all)))

unfoldable pub resolve : Selector → List Endpoint → Origin → Result Endpoint
resolve s all o = elim s.endpoint [
  | some id ↦
      ok_or (find (λ e. opaque_eq e.endpoint_id id) all)
        (new agent_not_found (codes "no endpoint with that id"))
  | none ↦ settle (narrowed s all o)
]
