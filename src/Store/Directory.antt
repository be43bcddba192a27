-- ===== src/Store/Directory.antt =====
-- What the store knows of an endpoint, and the operations that set it: `set_state`, `endpoint`,
-- `policy`, `capabilities`, `set_capabilities`, `set_address` and `set_policy`. The JSON of a policy
-- and of capabilities is read as what it spells.
use vvagent.Base.{ℕ, ◌+◌, ◌==◌, [], Option, none, some, codes, if◌then◌else◌, unwrap_or}
use vvagent.Error.{Result, ok, err, new, not_found, io}
use vvagent.Address.Defs.{Address}
use vvagent.Capability.Defs.{Capabilities}
use vvagent.Endpoint.{Endpoint}
use vvagent.Identity.AgentState.{AgentState}
use vvagent.Identity.Opaque.{Opaque}
use vvagent.Policy.Defs.{Policy, default}
use vvagent.Store.Tables.{Store, EndpointRow, find_endpoint, is_endpoint}
use vvagent.Store.Rows.{update, changed}

abbrev pub enter : AgentState → EndpointRow → EndpointRow
enter state e = record e { state = state; state_generation = e.state_generation + 1 }

-- The generation after the change; of an endpoint that is not there, a row that is missing.
unfoldable pub set_state : Store → Opaque → AgentState → Result ℕ × Store
set_state s id state =
    let after = record s { endpoints = update (is_endpoint id) (enter state) s.endpoints } in
    elim (find_endpoint after id) [
      | none ↦ (err (new io (codes "sqlite: Query returned no rows")), s)
      | some e ↦ (ok e.state_generation, after)
    ]

-- `build_endpoint`: a row as an `Endpoint`.
abbrev pub build_endpoint : EndpointRow → Endpoint
build_endpoint e = record {
  endpoint_id = e.endpoint_id;
  incarnation_id = e.incarnation_id;
  alias = elim e.alias [ none ↦ none | some name ↦ some (record { chars = name }) ];
  provider = e.provider;
  locator = record {
    kind = e.runtime_kind;
    runtime_instance_id = e.runtime_instance_id;
    instance_name = e.instance_name;
    address = e.address;
  };
  online = e.online;
  state_generation = e.state_generation;
  state = e.state;
  pending = e.pending_count;
}

unfoldable pub endpoint : Store → Opaque → Result Endpoint
endpoint s id = elim (find_endpoint s id) [
  | none ↦ err (new not_found (codes "no such endpoint"))
  | some e ↦ ok (build_endpoint e)
]

unfoldable pub policy : Store → Opaque → Policy
policy s id = elim (find_endpoint s id) [ none ↦ default | some e ↦ unwrap_or e.policy default ]

-- `Capabilities::default`: nothing was established.
abbrev pub no_capabilities : Capabilities
no_capabilities = record {
  provider = none;
  version = none;
  native_session = none;
  granted = [];
  notes = [];
}

unfoldable pub capabilities : Store → Opaque → Capabilities
capabilities s id = elim (find_endpoint s id) [
  | none ↦ no_capabilities
  | some e ↦ unwrap_or e.capabilities no_capabilities
]

-- An UPDATE of one endpoint, which must be there.
unfoldable pub change_endpoint :
    (EndpointRow → EndpointRow) → Store → Opaque → Result (Unit {0}) × Store
change_endpoint f s id =
    if changed (is_endpoint id) s.endpoints == 0
    then (err (new not_found (codes "no such endpoint")), s)
    else (ok tt, record s { endpoints = update (is_endpoint id) f s.endpoints })

abbrev pub with_capabilities : Capabilities → EndpointRow → EndpointRow
with_capabilities c e = record e { capabilities = some c }

abbrev pub with_address : Option Address → EndpointRow → EndpointRow
with_address a e = record e { address = a }

abbrev pub with_policy : Policy → EndpointRow → EndpointRow
with_policy p e = record e { policy = some p }

unfoldable pub set_capabilities : Store → Opaque → Capabilities → Result (Unit {0}) × Store
unfolding change_endpoint
set_capabilities s id c = change_endpoint (with_capabilities c) s id

unfoldable pub set_address : Store → Opaque → Option Address → Result (Unit {0}) × Store
unfolding change_endpoint
set_address s id a = change_endpoint (with_address a) s id

unfoldable pub set_policy : Store → Opaque → Policy → Result (Unit {0}) × Store
unfolding change_endpoint
set_policy s id p = change_endpoint (with_policy p) s id
