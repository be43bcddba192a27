-- ===== src/Store/Unbinding.antt =====
-- `unbind`, and `ensure_local_user`: the local user's own mailbox. The fresh id and the clock are
-- arguments.
use vvagent.Base.{
  ℕ, ◌+◌, Bool, true, false, ◌&&◌, ◌==◌, [], ◌∷◌, ◌++◌, none, some, Text, codes, if◌then◌else◌,
  find, is_some, option_eq,
}
use vvagent.Error.{Result, ok, err, new, io}
use vvagent.Identity.AgentState.{unknown, offline}
use vvagent.Identity.Opaque.{Opaque, opaque_eq}
use vvagent.Identity.RuntimeKind.{RuntimeKind}
use vvagent.Message.PrincipalKind
use vvagent.Message.State.{queued}
use vvagent.Store.Tables.{Store, EndpointRow, Message, Caller, audit, find_endpoint, is_endpoint}
use vvagent.Store.Rows.{update, changed}
use vvagent.Store.Receive.{release, is_claimed}
use vvagent.Store.Binding.{lifecycle_audit, in_slot}

-- `WHERE endpoint_id=?1 AND incarnation_id=?2`
abbrev pub bound_as : Opaque → Opaque → EndpointRow → Bool
bound_as id incarnation e =
    is_endpoint id e && option_eq opaque_eq e.incarnation_id (some incarnation)

abbrev pub go_offline : EndpointRow → EndpointRow
go_offline e = record e {
  online = false;
  state = offline;
  incarnation_id = none;
  token_hash = none;
  state_generation = e.state_generation + 1;
}

-- `state='claimed' AND claim_owner=?`
abbrev pub held_by : Opaque → Message → Bool
held_by owner m = is_claimed m.state && option_eq opaque_eq m.claim_owner (some owner)

unfoldable pub unbind : Store → ℕ → Opaque → Opaque → Store
unbind s now id incarnation =
    if changed (bound_as id incarnation) s.endpoints == 0
    then audit s (lifecycle_audit now id (codes "unbind") (codes "stale_incarnation"))
    else audit
        (record s {
          endpoints = update (bound_as id incarnation) go_offline s.endpoints;
          messages =
              update (λ m. opaque_eq m.to_endpoint id && held_by incarnation m) (release queued)
                s.messages;
        })
        (lifecycle_audit now id (codes "unbind") (codes "ok"))

-- `LOCAL_USER_INSTANCE`
abbrev pub local_user_instance : Opaque
local_user_instance = record { chars = codes "00000000000000000000000000000001" }

abbrev pub local_user_alias : Text
local_user_alias = codes "local-user"

abbrev pub local_user_row : ℕ → Opaque → EndpointRow
local_user_row now id = record {
  endpoint_id = id;
  incarnation_id = some id;
  token_hash = none;
  alias = some local_user_alias;
  provider = none;
  runtime_kind = RuntimeKind.wrapper;
  runtime_instance_id = local_user_instance;
  instance_name = some (codes "local");
  address = none;
  online = true;
  state = unknown;
  state_generation = 1;
  next_sequence = 1;
  pending_count = 0;
  pending_bytes = 0;
  policy = none;
  capabilities = none;
  created_at = now;
}

abbrev pub local_user_caller : Opaque → Opaque → Caller
local_user_caller id incarnation = record {
  principal = record {
    kind = PrincipalKind.local_user;
    endpoint_id = some id;
    incarnation_id = some incarnation;
  };
  scope = some local_user_instance;
}

-- `SET incarnation_id=?1, online=1`
abbrev pub revive : Opaque → EndpointRow → EndpointRow
revive id e = record e { incarnation_id = some id; online = true }

unfoldable pub ensure_local_user : Store → ℕ → Opaque → Result Caller × Store
ensure_local_user s now fresh =
    elim (find (in_slot local_user_alias local_user_instance) s.endpoints) [
      | some e ↦ elim e.incarnation_id [
        | some incarnation ↦ (ok (local_user_caller e.endpoint_id incarnation), s)
        | none ↦ (
          ok (local_user_caller e.endpoint_id e.endpoint_id),
          record s {
            endpoints = update (is_endpoint e.endpoint_id) (revive e.endpoint_id) s.endpoints;
          },
        )
      ]
      | none ↦
          if is_some (find_endpoint s fresh)
          then (err (new io (codes "sqlite: UNIQUE constraint failed: endpoint.endpoint_id")), s)
          else (
            ok (local_user_caller fresh fresh),
            record s { endpoints = s.endpoints ++ local_user_row now fresh ∷ [] },
          )
    ]
