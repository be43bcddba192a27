-- ===== src/Endpoint.antt =====
-- agent-mesh-core/src/lib.rs: `Locator` and `Endpoint`, and the names offered for retyping. The
-- counters `state_generation` and `pending` are natural numbers.
use vvagent.Base.{ℕ, Bool, Option, none, some, Text, ◌++◌, ◌∷◌, codes}
use vvagent.Address.Defs.{Address, display}
use vvagent.Identity.Opaque
use vvagent.Identity.Opaque.{Opaque}
use vvagent.Identity.Alias
use vvagent.Identity.Alias.{Alias}
use vvagent.Identity.RuntimeKind
use vvagent.Identity.RuntimeKind.{RuntimeKind}
use vvagent.Identity.AgentState.{AgentState}

pub record Locator : Type 0 where
  pub kind : RuntimeKind
  pub runtime_instance_id : Opaque
  pub instance_name : Option Text
  pub address : Option Address

pub record Endpoint : Type 0 where
  pub endpoint_id : Opaque
  pub incarnation_id : Option Opaque
  pub alias : Option Alias
  pub provider : Option Text
  pub locator : Locator
  pub online : Bool
  pub state_generation : ℕ
  pub state : AgentState
  pub pending : ℕ

unfoldable pub by_id : Endpoint → Text
by_id e = codes "agent://local/" ++ Opaque.as_str e.endpoint_id

unfoldable pub qualified : Locator → Text → Text → Text
qualified l name target = RuntimeKind.as_str l.kind ++ b':' ∷ (name ++ b'/' ∷ target)

unfoldable pub qualified_name : Endpoint → Text
unfolding by_id qualified
qualified_name e = elim e.locator.instance_name [
  | none ↦ by_id e
  | some name ↦ elim e.alias [
    | some alias ↦ qualified e.locator name (Alias.as_str alias)
    | none ↦ elim e.locator.address [
      | some address ↦ qualified e.locator name (display address)
      | none ↦ by_id e
    ]
  ]
]

unfoldable pub qualified_address : Endpoint → Option Text
unfolding qualified
qualified_address e = elim e.locator.instance_name [
  | none ↦ none
  | some name ↦ elim e.locator.address [
    | none ↦ none
    | some address ↦ some (qualified e.locator name (display address))
  ]
]
