-- ===== src/Store/Peers/Leases.antt =====
-- `acquire_peer_lease` and `release_peer_lease`: the one bridge that may act for a peer.
use vvagent.Base.{
  ℕ, max, Bool, true, false, not, ◌&&◌, ◌==◌, Option, none, some, codes, if◌then◌else◌, find, any,
  is_some_and, option_eq, ltb,
}
use vvagent.Base.Int.{ℤ, pos_part}
use vvagent.Error.{Result, ok, err, new, not_found}
use vvagent.Identity.Opaque.{Opaque, opaque_eq}
use vvagent.Message.State.{queued}
use vvagent.Store.Tables.{Store, EndpointRow, PeerRow, LeaseAnchor, audit, saturating_add}
use vvagent.Store.Rows.{update, changed}
use vvagent.Store.Receive.{release}
use vvagent.Store.Unbinding.{held_by}
use vvagent.Store.Peers.Pins.{known_as, peer_audit}

-- `endpoint_id IN (SELECT endpoint_id FROM proxy WHERE peer_id=?1)`
abbrev pub is_proxy_of : Store → Opaque → Opaque → Bool
is_proxy_of s peer id = any (λ x. opaque_eq x.peer_id peer && opaque_eq x.endpoint_id id) s.proxies

-- A departing bridge's claims on the outboxes of its peer go back on the queue.
unfoldable pub requeue_proxy_claims : Opaque → Opaque → Store → Store
requeue_proxy_claims peer owner s = record s {
  messages =
      update (λ m. held_by owner m && is_proxy_of s peer m.to_endpoint) (release queued) s.messages;
}

abbrev pub owner_of : PeerRow → Option Opaque
owner_of p = elim p.lease [ none ↦ none | some l ↦ some l.0 ]

abbrev pub held_by_other : Opaque → PeerRow → Bool
held_by_other owner p = is_some_and p.lease (λ l. not (opaque_eq l.0 owner))

abbrev pub lease_is_live : ℕ → PeerRow → Bool
lease_is_live now p = is_some_and p.lease (λ l. ltb now l.1)

abbrev pub grant : Opaque → ℕ → Option LeaseAnchor → PeerRow → PeerRow
grant owner expires_at anchor p = record p {
  lease = some (owner, expires_at);
  lease_anchor = anchor;
}

abbrev pub take_proxy : Opaque → EndpointRow → EndpointRow
take_proxy owner e = record e { incarnation_id = some owner; online = true }

abbrev pub has_id : Opaque → PeerRow → Bool
has_id id p = opaque_eq p.peer_id id

-- Another bridge's lease that has lapsed gives back what it claimed.
unfoldable pub requeue_last : Opaque → Opaque → Option (Opaque × ℕ) → Store → Store
unfolding requeue_proxy_claims
requeue_last peer_id owner none s = s
requeue_last peer_id owner (some l) s =
    if opaque_eq l.0 owner then s else requeue_proxy_claims peer_id l.0 s

-- The writes of a lease that is granted.
unfoldable pub grant_lease : ℕ → Opaque → Opaque → Option LeaseAnchor → ℤ → PeerRow → Store → Store
unfolding requeue_last
grant_lease now peer_id owner anchor ttl_ms p s =
    let requeued = requeue_last peer_id owner p.lease s in
    let granted = record requeued {
      peers =
          update (has_id peer_id)
            (grant owner (saturating_add now (max (pos_part ttl_ms) 1)) anchor) requeued.peers;
      endpoints =
          update (λ e. is_proxy_of s peer_id e.endpoint_id) (take_proxy owner) requeued.endpoints;
    } in
    if option_eq opaque_eq (owner_of p) (some owner)
    then granted
    else audit granted (peer_audit now (codes "peer_lease") (codes "acquired"))

unfoldable pub acquire_peer_lease :
    Store → ℕ → Opaque → Opaque → Option LeaseAnchor → ℤ → Result Bool × Store
unfolding grant_lease
acquire_peer_lease s now peer_id owner anchor ttl_ms = elim (find (known_as peer_id) s.peers) [
  | none ↦ (err (new not_found (codes "no such peer")), s)
  | some p ↦
      if held_by_other owner p && lease_is_live now p
      then (ok false, s)
      else (ok true, grant_lease now peer_id owner anchor ttl_ms p s)
]

-- `WHERE peer_id=?1 AND lease_owner=?2`
abbrev pub leased_to : Opaque → Opaque → PeerRow → Bool
leased_to peer_id owner p =
    opaque_eq p.peer_id peer_id && option_eq opaque_eq (owner_of p) (some owner)

abbrev pub drop_lease : PeerRow → PeerRow
drop_lease p = record p { lease = none; lease_anchor = none }

abbrev pub leave_proxy : EndpointRow → EndpointRow
leave_proxy e = record e { incarnation_id = none; online = false }

unfoldable pub release_peer_lease : Store → ℕ → Opaque → Opaque → Store
unfolding requeue_proxy_claims
release_peer_lease s now peer_id owner =
    if changed (leased_to peer_id owner) s.peers == 0
    then s
    else let dropped = record s { peers = update (leased_to peer_id owner) drop_lease s.peers } in
      let requeued = requeue_proxy_claims peer_id owner dropped in
      audit
        (record requeued {
          endpoints =
              update (λ e. is_proxy_of s peer_id e.endpoint_id) leave_proxy requeued.endpoints;
        })
        (peer_audit now (codes "peer_lease") (codes "released"))
