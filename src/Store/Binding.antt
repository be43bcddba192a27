-- ===== src/Store/Binding.antt =====
-- `bind` and `authenticate`. The random bytes of a token (none where the system has no entropy), the
-- fresh ids, the clock and SHA-256 are arguments.
use vvagent.Base.{
  ℕ, ◌+◌, Bool, true, false, not, ◌&&◌, List, [], ◌∷◌, ◌++◌, Option, none, some, Text, codes,
  if◌then◌else◌, find, is_some, option_eq, text_eq, leb, length, bytes,
}
use vvagent.Base.Bits.{constant_time_eq}
use vvagent.Error.{Result, ok, err, new, invalid_request, endpoint_limit, not_authorized, io}
use vvagent.Endpoint.{Locator}
use vvagent.Identity.Alias
use vvagent.Identity.Alias.{Alias}
use vvagent.Identity.AgentState.{unknown}
use vvagent.Identity.Opaque.{Opaque, opaque_eq, hex}
use vvagent.Identity.RuntimeKind.{RuntimeKind, kind_eq}
use vvagent.Message.PrincipalKind
use vvagent.Store.Tables.{Store, EndpointRow, AuditRow, Caller, audit, find_endpoint, is_endpoint}
use vvagent.Store.Rows.{update}

abbrev pub max_endpoints : ℕ
max_endpoints = 1024

pub record Binding : Type 0 where
  pub alias : Option Alias
  pub provider : Option Text
  pub locator : Locator

pub record Bound : Type 0 where
  pub endpoint_id : Opaque
  pub incarnation_id : Opaque
  pub token : Text
  pub rebound : Bool

-- `hex(&sha256(token.as_bytes()))`
abbrev pub token_hash_of : (List ℕ → List ℕ) → Text → Text
token_hash_of sha256 token = hex (sha256 (bytes token))

-- `WHERE alias = ?1 AND runtime_instance_id = ?2`
abbrev pub in_slot : Text → Opaque → EndpointRow → Bool
in_slot alias scope e =
    option_eq text_eq e.alias (some alias) && opaque_eq e.runtime_instance_id scope

unfoldable pub existing_slot : Store → Binding → Option EndpointRow
existing_slot s b = elim b.alias [
  | none ↦ none
  | some alias ↦ find (in_slot (Alias.as_str alias) b.locator.runtime_instance_id) s.endpoints
]

abbrev pub lifecycle_audit : ℕ → Opaque → Text → Text → AuditRow
lifecycle_audit now endpoint operation outcome = record {
  at_ms = now;
  message_id = none;
  endpoint_id = some endpoint;
  operation = operation;
  from_state = none;
  to_state = none;
  rule = none;
  bytes = 0;
  result = outcome;
}

-- The UPDATE of `bind`.
abbrev pub rebind : Binding → Opaque → Text → EndpointRow → EndpointRow
rebind b incarnation token_hash e = record e {
  incarnation_id = some incarnation;
  token_hash = some token_hash;
  provider = b.provider;
  online = true;
  state = unknown;
  state_generation = e.state_generation + 1;
  instance_name = b.locator.instance_name;
  address = b.locator.address;
}

-- The INSERT of `bind`.
abbrev pub bound_row : ℕ → Binding → Opaque → Opaque → Text → EndpointRow
bound_row now b id incarnation token_hash = record {
  endpoint_id = id;
  incarnation_id = some incarnation;
  token_hash = some token_hash;
  alias = elim b.alias [ none ↦ none | some alias ↦ some (Alias.as_str alias) ];
  provider = b.provider;
  runtime_kind = b.locator.kind;
  runtime_instance_id = b.locator.runtime_instance_id;
  instance_name = b.locator.instance_name;
  address = b.locator.address;
  online = true;
  state = unknown;
  state_generation = 1;
  next_sequence = 1;
  pending_count = 0;
  pending_bytes = 0;
  policy = none;
  capabilities = none;
  created_at = now;
}

module _ (sha256 : List ℕ → List ℕ) where
  unfoldable pub bind_new : Store → ℕ → Binding → Text → Opaque → Opaque → Result Bound × Store
  bind_new s now b token incarnation fresh =
      if leb max_endpoints (length s.endpoints)
      then (err (new endpoint_limit (codes "1024 endpoints already registered")), s)
      else if is_some (find_endpoint s fresh)
      then (err (new io (codes "sqlite: UNIQUE constraint failed: endpoint.endpoint_id")), s)
      else (
        ok (record {
          endpoint_id = fresh;
          incarnation_id = incarnation;
          token = token;
          rebound = false;
        }),
        audit
            (record s {
              endpoints =
                  s.endpoints
                  ++ bound_row now b fresh incarnation (token_hash_of sha256 token) ∷ [];
            })
            (lifecycle_audit now fresh (codes "bind") (codes "ok")),
      )

  unfoldable pub bind_again :
      Store → ℕ → Binding → Text → Opaque → EndpointRow → Result Bound × Store
  bind_again s now b token incarnation e = (
    ok (record {
      endpoint_id = e.endpoint_id;
      incarnation_id = incarnation;
      token = token;
      rebound = true;
    }),
    audit
        (record s {
          endpoints =
              update (is_endpoint e.endpoint_id) (rebind b incarnation (token_hash_of sha256 token))
                s.endpoints;
        })
        (lifecycle_audit now e.endpoint_id (codes "rebind") (codes "ok")),
  )

  unfoldable pub bind :
      Store → ℕ → Binding → Option (List ℕ) → Opaque → Opaque → Result Bound × Store
  unfolding bind_new bind_again
  bind s now b token_bytes incarnation fresh =
      if kind_eq b.locator.kind RuntimeKind.peer
      then (
        err (
            new invalid_request
              (codes "a peer endpoint is a proxy for a remote agent; no local process binds one")),
        s,
      )
      else elim token_bytes [
        | none ↦ (err (new io (codes "no OS entropy for a token")), s)
        | some random ↦ elim (existing_slot s b) [
          | some e ↦ bind_again s now b (hex random) incarnation e
          | none ↦ bind_new s now b (hex random) incarnation fresh
        ]
      ]

  unfoldable pub authenticate : Store → Opaque → Text → Result Caller
  authenticate s id token = elim (find_endpoint s id) [
    | none ↦ err (new not_authorized (codes "that endpoint has no live binding"))
    | some e ↦ elim e.token_hash [
      | none ↦ err (new not_authorized (codes "that endpoint has no live binding"))
      | some stored ↦
          if not (constant_time_eq (bytes stored) (bytes (token_hash_of sha256 token)))
          then err (new not_authorized (codes "endpoint token does not match"))
          else ok (record {
            principal = record {
              kind = PrincipalKind.agent;
              endpoint_id = some id;
              incarnation_id = e.incarnation_id;
            };
            scope = some e.runtime_instance_id;
          })
    ]
  ]
