-- ===== src/Resolve/Examples.antt =====
-- Two agents of one alias in two runtime instances, resolved from one of them.
use mathlib.Core.List.{Sublist}
use vvagent.Resolve.Narrowing.{Outranked}
use vvagent.Base.{
  take, map, ℕ, ◌≤◌, ◌≡◌, refl, ◌↔◌, ◌⊎◌, inl, true, List, [], ◌∷◌, Option, none, some, text_eq,
  length, In, here,
}
use vvagent.Error.{Result, ok, err, MeshError, agent_not_found, agent_ambiguous}
use vvagent.Identity.Opaque.{Opaque, opaque_eq}
use vvagent.Identity.Alias.{Alias, alias_eq}
use vvagent.Identity.RuntimeKind.{vvmux}
use vvagent.Identity.AgentState.{idle}
use vvagent.Selector.Defs.{Selector}
use vvagent.Endpoint.{Endpoint, qualified_name}
use vvagent.Resolve.Defs.{
  Origin, resolve, candidate, by_alias, scope_admits, narrowed, prefer, drop_self, own_scope,
  nearest, settle,
}
use vvagent.Resolve.Steps.{Closer, Nearer}
use vvagent.Resolve.Laws.{Matches}
use vvagent.Resolve.Choice.{resolve_sound, resolve_not_found, resolve_prefers, resolve_ambiguous}

abbrev id : ℕ → Opaque
id n = record { chars = n ∷ [] }

abbrev reviewer : Alias
reviewer = record { chars = b'r' ∷ [] }

abbrev agent_at : ℕ → ℕ → Endpoint
agent_at n scope = record {
  endpoint_id = id n;
  incarnation_id = none;
  alias = some reviewer;
  provider = none;
  locator = record {
    kind = vvmux;
    runtime_instance_id = id scope;
    instance_name = none;
    address = none;
  };
  online = true;
  state_generation = 0;
  state = idle;
  pending = 0;
}

abbrev agents : List Endpoint
agents = agent_at b'1' b'8' ∷ agent_at b'2' b'9' ∷ []

abbrev by_name : Selector
by_name = record { endpoint = none; alias = some reviewer; address = none; scope = none }

abbrev inside : Origin
inside = record { scope = some (id b'9'); address = none; endpoint = none }

abbrev outside : Origin
outside = record { scope = none; address = none; endpoint = none }

found : resolve by_name agents inside ≡ ok (agent_at b'2' b'9')
unfolding resolve narrowed candidate by_alias scope_admits alias_eq opaque_eq prefer drop_self
    own_scope nearest settle text_eq
found = refl

first-Matches : Matches by_name (agent_at b'1' b'8')
first-Matches = (tt, inl (reviewer, refl, refl))

resolve_sound_example :
    In (agent_at b'2' b'9') agents
    × ((i : Opaque) → by_name.endpoint ≡ some i → (agent_at b'2' b'9').endpoint_id ≡ i)
    × (by_name.endpoint ≡ none → Matches by_name (agent_at b'2' b'9'))
resolve_sound_example = resolve_sound by_name agents inside (agent_at b'2' b'9') found

resolve_not_found_example :
    ((m : MeshError) × (resolve by_name agents inside ≡ err m) × (m.code ≡ agent_not_found))
    ↔ ((e : Endpoint) → In e agents → ¬ Matches by_name e)
resolve_not_found_example = resolve_not_found by_name agents inside refl

resolve_prefers_example :
    (agent_at b'1' b'8' ≡ agent_at b'2' b'9')
    ⊎ (inside.endpoint ≡ some (id b'1'))
    ⊎ Closer inside (agent_at b'2' b'9') (agent_at b'1' b'8')
    ⊎ Nearer inside (agent_at b'2' b'9') (agent_at b'1' b'8')
resolve_prefers_example =
    resolve_prefers by_name agents inside (agent_at b'2' b'9') (agent_at b'1' b'8') refl found here
      first-Matches

abbrev error_of : Result Endpoint → Option MeshError
error_of (ok e) = none
error_of (err m) = some m

both : (m : MeshError) × (resolve by_name agents outside ≡ err m) × (m.code ≡ agent_ambiguous)
unfolding resolve narrowed candidate by_alias scope_admits alias_eq prefer drop_self own_scope
    nearest settle text_eq
both = (_, refl, refl)

resolve_ambiguous_example :
    (left : List Endpoint) × Sublist left agents
    × (2 ≤ length left)
    × ((e : Endpoint) → In e left → Matches by_name e)
    × ((e f : Endpoint)
        → In e left
        → In f agents
        → Matches by_name f
        → In f left ⊎ Outranked outside e f)
    × (both.0.candidates ≡ take 8 (map qualified_name left))
resolve_ambiguous_example = resolve_ambiguous by_name agents outside both.0 refl both.1 both.2
