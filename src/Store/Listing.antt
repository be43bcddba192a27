-- ===== src/Store/Listing.antt =====
-- The lists of the store: `list_endpoints`, `list_peers`, `list_proxies`, `cancellations_to_forward`
-- and `audit_for`; and `name_of`.
use vvagent.Base.{
  ℕ, Bool, not, ◌&&◌, ◌++◌, List, none, some, Text, codes, if◌then◌else◌, keep, map, find,
  option_eq, ltb, leb, ◌==◌, text_eq,
}
use vvagent.Base.Sort.{sort_by, text_leb, null_first}
use vvagent.Endpoint.{Endpoint, qualified_name}
use vvagent.Identity.Opaque
use vvagent.Identity.Opaque.{Opaque, opaque_eq}
use vvagent.Identity.RuntimeKind
use vvagent.Identity.RuntimeKind.{kind_eq}
use vvagent.Store.Tables.{
  Store, EndpointRow, PeerRow, ProxyRow, AuditRow, find_endpoint, find_proxy,
}
use vvagent.Store.Directory.{build_endpoint}
use vvagent.Store.Inbox.{is_stopping}
use vvagent.Store.Peers.Pins.{known_as, label_text}
use vvagent.Store.Peers.Leases.{is_proxy_of}

abbrev pub is_local : EndpointRow → Bool
is_local e = not (kind_eq e.runtime_kind RuntimeKind.peer)

-- `ORDER BY alias, endpoint_id`
abbrev pub by_alias : EndpointRow → EndpointRow → Bool
by_alias e f =
    if option_eq text_eq e.alias f.alias
    then text_leb (Opaque.as_str e.endpoint_id) (Opaque.as_str f.endpoint_id)
    else null_first e.alias f.alias

unfoldable pub list_endpoints : Store → List Endpoint
list_endpoints s = map build_endpoint (sort_by by_alias (keep is_local s.endpoints))

-- `ORDER BY label`
abbrev pub by_label : PeerRow → PeerRow → Bool
by_label p q = text_leb (label_text p.label) (label_text q.label)

unfoldable pub list_peers : Store → List PeerRow
list_peers s = sort_by by_label (keep (λ p. not p.retired) s.peers)

abbrev pub created : Store → ProxyRow → ℕ
created s x = elim (find_endpoint s x.endpoint_id) [ none ↦ 0 | some e ↦ e.created_at ]

-- `ORDER BY e.created_at, x.endpoint_id`
abbrev pub by_age : Store → ProxyRow → ProxyRow → Bool
by_age s x y =
    if created s x == created s y
    then text_leb (Opaque.as_str x.endpoint_id) (Opaque.as_str y.endpoint_id)
    else ltb (created s x) (created s y)

unfoldable pub list_proxies : Store → Opaque → List ProxyRow
list_proxies s peer_id = sort_by (by_age s) (keep (λ x. opaque_eq x.peer_id peer_id) s.proxies)

-- Requests to this peer whose senders asked for them to stop, with their proxies.
unfoldable pub cancellations_to_forward : Store → Opaque → List (Opaque × Opaque)
cancellations_to_forward s peer_id =
    map (λ m. (m.message_id, m.to_endpoint))
      (sort_by (λ m n. leb m.created_at n.created_at)
        (keep (λ m. is_proxy_of s peer_id m.to_endpoint && is_stopping m.state) s.messages))

unfoldable pub audit_for : Store → Opaque → List AuditRow
audit_for s id = keep (λ a. option_eq opaque_eq a.message_id (some id)) s.audits

-- A proxy is named by its peer and the remote id.
unfoldable pub name_of : Store → Endpoint → Text
name_of s e =
    if not (kind_eq e.locator.kind RuntimeKind.peer)
    then qualified_name e
    else elim (find_proxy s e.endpoint_id) [
      | none ↦ codes "agent://peer/" ++ Opaque.as_str e.endpoint_id
      | some x ↦ elim (find (known_as x.peer_id) s.peers) [
        | none ↦ codes "agent://peer/" ++ Opaque.as_str e.endpoint_id
        | some p ↦
            codes "agent://"
            ++ (label_text p.label ++ (codes "/" ++ Opaque.as_str x.remote_endpoint_id))
      ]
    ]
