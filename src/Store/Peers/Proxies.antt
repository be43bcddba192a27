-- ===== src/Store/Peers/Proxies.antt =====
-- `ensure_proxy`, `proxy` and `proxy_caller`: the local stand-ins for a peer's agents.
use vvagent.Base.{
  ℕ, Bool, not, ◌&&◌, ◌||◌, [], ◌∷◌, ◌++◌, Option, none, some, Text, codes, if◌then◌else◌, find,
  is_some, any, leb, ltb, len, length, is_control,
}
use vvagent.Bridge.Frame.{max_display_bytes}
use vvagent.Error.{Result, ok, err, ◌>>=◌, ◌>>◌, ok_or, new, not_found, endpoint_limit, io}
use vvagent.Identity.AgentState.{unknown}
use vvagent.Identity.Opaque.{Opaque, opaque_eq}
use vvagent.Identity.RuntimeKind
use vvagent.Message.PrincipalKind
use vvagent.Policy.Defs.{Policy, anyone, nobody, default}
use vvagent.Policy.TeamScope
use vvagent.Store.Tables.{
  Store, EndpointRow, PeerRow, ProxyRow, Caller, audit, find_endpoint, find_proxy,
}
use vvagent.Store.Rows.{update}
use vvagent.Store.Queries.{require_live_lease}
use vvagent.Store.Binding.{max_endpoints, lifecycle_audit}
use vvagent.Store.Peers.Pins.{known_as}

-- An outbox for local senders, that is never woken.
unfoldable pub proxy_policy : Policy
unfolding default
proxy_policy = record default {
  enqueue = anyone;
  make_visible = anyone;
  activate = nobody;
  team = TeamScope.off;
}

-- `WHERE peer_id=?1 AND remote_endpoint_id=?2`
abbrev pub stands_for : Opaque → Opaque → ProxyRow → Bool
stands_for peer_id remote x = opaque_eq x.peer_id peer_id && opaque_eq x.remote_endpoint_id remote

-- What a peer may have shown: bounded and with no control characters, or dropped.
abbrev pub shown : Option Text → Option Text
shown none = none
shown (some value) =
    if leb (len value) max_display_bytes && not (any is_control value) then some value else none

abbrev pub live_owner : ℕ → PeerRow → Option Opaque
live_owner now p = elim p.lease [ none ↦ none | some l ↦ if ltb now l.1 then some l.0 else none ]

-- The endpoint row of a new proxy.
abbrev pub proxy_endpoint : ℕ → Opaque → Option Opaque → Opaque → EndpointRow
proxy_endpoint now peer_id owner fresh = record {
  endpoint_id = fresh;
  incarnation_id = owner;
  token_hash = none;
  alias = none;
  provider = none;
  runtime_kind = RuntimeKind.peer;
  runtime_instance_id = peer_id;
  instance_name = none;
  address = none;
  online = is_some owner;
  state = unknown;
  state_generation = 1;
  next_sequence = 1;
  pending_count = 0;
  pending_bytes = 0;
  policy = some proxy_policy;
  capabilities = none;
  created_at = now;
}

-- `UPDATE proxy SET display=?2 WHERE endpoint_id=?1`
unfoldable pub show : Opaque → Option Text → Store → Store
show id none s = s
show id (some text) s = record s {
  proxies =
      update (λ x. opaque_eq x.endpoint_id id) (λ x. record x { display = some text }) s.proxies;
}

unfoldable pub new_proxy :
    Store → ℕ → PeerRow → Opaque → Opaque → Option Text → Opaque → Result Opaque × Store
new_proxy s now p peer_id remote display fresh =
    if leb max_endpoints (length s.endpoints)
    then (err (new endpoint_limit (codes "1024 endpoints already registered")), s)
    else if is_some (find_endpoint s fresh) || is_some (find_proxy s fresh)
    then (err (new io (codes "sqlite: UNIQUE constraint failed")), s)
    else (
      ok fresh,
      audit
          (record s {
            endpoints = s.endpoints ++ proxy_endpoint now peer_id (live_owner now p) fresh ∷ [];
            proxies =
                s.proxies
                ++ record {
                  endpoint_id = fresh;
                  peer_id = peer_id;
                  remote_endpoint_id = remote;
                  display = display;
                }
                  ∷ [];
          })
          (lifecycle_audit now fresh (codes "proxy") (codes "created")),
    )

unfoldable pub ensure_proxy :
    Store → ℕ → Opaque → Opaque → Option Text → Opaque → Result Opaque × Store
unfolding show new_proxy
ensure_proxy s now peer_id remote display fresh = elim (find (known_as peer_id) s.peers) [
  | none ↦ (err (new not_found (codes "no such peer")), s)
  | some p ↦ elim (find (stands_for peer_id remote) s.proxies) [
    | some x ↦ (ok x.endpoint_id, show x.endpoint_id (shown display) s)
    | none ↦ new_proxy s now p peer_id remote (shown display) fresh
  ]
]

unfoldable pub proxy : Store → Opaque → Result ProxyRow
proxy s id = ok_or (find_proxy s id) (new not_found (codes "no such proxy"))

-- The only way to a `peer` caller: the live holder of the lease of the proxy's peer.
unfoldable pub proxy_caller : Store → ℕ → Opaque → Opaque → Result Caller
unfolding proxy
proxy_caller s now id owner = proxy s id >>= λ x.
    require_live_lease s now x.peer_id owner
    >> ok (record {
      principal = record {
        kind = PrincipalKind.peer;
        endpoint_id = some x.endpoint_id;
        incarnation_id = some owner;
      };
      scope = some x.peer_id;
    })
