-- ===== src/Store/Peers/Kept.antt =====
-- Leases and proxies keep the counters right and the message ids unique.
use vvagent.Base.{
  ℕ, refl, inl, inr, Bool, ◌&&◌, ◌||◌, ◌==◌, Option, none, some, arith, Text, find, is_some,
  option_eq, leb, length, Bool-cases,
}
use vvagent.Base.Int.{ℤ}
use vvagent.Identity.Opaque.{Opaque, opaque_eq}
use vvagent.Store.Tables.{Store, EndpointRow, PeerRow, LeaseAnchor, find_endpoint, find_proxy}
use vvagent.Store.Rows.{update, changed}
use vvagent.Store.Binding.{max_endpoints}
use vvagent.Store.Unbinding.{held_by}
use vvagent.Store.Branches.{After, on_if, on_option}
use vvagent.Store.Lifecycle.{Sound, NoMail, endpoints-Counted, append-Counted, requeue-Sound}
use vvagent.Store.Peers.Pins.{known_as}
use vvagent.Store.Peers.Leases.{
  acquire_peer_lease, grant_lease, release_peer_lease, requeue_proxy_claims, requeue_last,
  is_proxy_of, held_by_other, lease_is_live, owner_of, take_proxy, leave_proxy, leased_to,
  drop_lease,
}
use vvagent.Store.Peers.Proxies.{ensure_proxy, show, shown, stands_for}

requeue_proxy_claims-Sound :
    (peer owner : Opaque) (s : Store) → Sound s → Sound (requeue_proxy_claims peer owner s)
unfolding requeue_proxy_claims
requeue_proxy_claims-Sound peer owner s h =
    requeue-Sound (λ m. held_by owner m && is_proxy_of s peer m.to_endpoint) s (λ m e. ground arith)
      h

-- A change of endpoints, and of what is not mail, after which the same holds.
proxies-Sound :
    (p : EndpointRow → Bool) (s : Store) (owner : Opaque)
    → Sound s
    → Sound (record s { endpoints = update p (take_proxy owner) s.endpoints })
proxies-Sound p s owner (u, h) =
    (u, endpoints-Counted p (take_proxy owner) s (λ x. (refl, refl, refl)) h)

requeue_last-Sound :
    (peer_id owner : Opaque) (last : Option (Opaque × ℕ)) (s : Store)
    → Sound s
    → Sound (requeue_last peer_id owner last s)
unfolding requeue_last
requeue_last-Sound peer_id owner none s h = h
requeue_last-Sound peer_id owner (some l) s h = elim (Bool-cases (opaque_eq l.0 owner)) [
  | inl own ↦ rw own h
  | inr other ↦ rw other (requeue_proxy_claims-Sound peer_id l.0 s h)
]

grant_lease-Sound :
    (now : ℕ) (peer_id owner : Opaque) (anchor : Option LeaseAnchor) (ttl_ms : ℤ) (p : PeerRow)
    (s : Store)
    → Sound s
    → Sound (grant_lease now peer_id owner anchor ttl_ms p s)
unfolding grant_lease
grant_lease-Sound now peer_id owner anchor ttl_ms p s h =
    let granted =
      proxies-Sound (λ e. is_proxy_of s peer_id e.endpoint_id)
        (requeue_last peer_id owner p.lease s) owner
        (requeue_last-Sound peer_id owner p.lease s h) in
    elim (Bool-cases (option_eq opaque_eq (owner_of p) (some owner))) [
      | inl renews ↦ rw renews granted
      | inr takes ↦ rw takes granted
    ]

acquire-After :
    (s : Store) (now : ℕ) (peer_id owner : Opaque) (anchor : Option LeaseAnchor) (ttl_ms : ℤ)
    → Sound s
    → After Sound (acquire_peer_lease s now peer_id owner anchor ttl_ms)
unfolding acquire_peer_lease
acquire-After s now peer_id owner anchor ttl_ms h =
    on_option (find (known_as peer_id) s.peers) _ _ (λ k. record { holds = h })
      (λ p k.
        on_if (held_by_other owner p && lease_is_live now p) (λ q. record { holds = h })
          (λ q. record { holds = grant_lease-Sound now peer_id owner anchor ttl_ms p s h }))

pub acquire_peer_lease-Sound :
    (s : Store) (now : ℕ) (peer_id owner : Opaque) (anchor : Option LeaseAnchor) (ttl_ms : ℤ)
    → Sound s
    → Sound (acquire_peer_lease s now peer_id owner anchor ttl_ms).1
acquire_peer_lease-Sound s now peer_id owner anchor ttl_ms h =
    (acquire-After s now peer_id owner anchor ttl_ms h).holds

pub release_peer_lease-Sound :
    (s : Store) (now : ℕ) (peer_id owner : Opaque)
    → Sound s
    → Sound (release_peer_lease s now peer_id owner)
unfolding release_peer_lease
release_peer_lease-Sound s now peer_id owner h =
    let dropped = record s { peers = update (leased_to peer_id owner) drop_lease s.peers } in
    let requeued = requeue_proxy_claims peer_id owner dropped in
    let (u, c) = requeue_proxy_claims-Sound peer_id owner dropped h in
    elim (Bool-cases (changed (leased_to peer_id owner) s.peers == 0)) [
      | inl other ↦ rw other h
      | inr own ↦ rw own (
        u,
        endpoints-Counted (λ e. is_proxy_of s peer_id e.endpoint_id) leave_proxy requeued
            (λ x. (refl, refl, refl)) c,
      )
    ]

show-Sound : (id : Opaque) (text : Option Text) (s : Store) → Sound s → Sound (show id text s)
unfolding show
show-Sound id none s h = h
show-Sound id (some text) s h = h

ensure_proxy-After :
    (s : Store) (now : ℕ) (peer_id remote : Opaque) (display : Option Text) (fresh : Opaque)
    → NoMail fresh s
    → Sound s
    → After Sound (ensure_proxy s now peer_id remote display fresh)
unfolding ensure_proxy
ensure_proxy-After s now peer_id remote display fresh n (u, h) =
    on_option (find (known_as peer_id) s.peers) _ _ (λ k. record { holds = (u, h) })
      (λ p k.
        on_option (find (stands_for peer_id remote) s.proxies) _ _
          (λ j.
            on_if (leb max_endpoints (length s.endpoints)) (λ q. record { holds = (u, h) })
              (λ q.
                on_if (is_some (find_endpoint s fresh) || is_some (find_proxy s fresh))
                  (λ q'. record { holds = (u, h) })
                  (λ q'. record { holds = (u, append-Counted _ s refl refl n h) })))
          (λ x j. record { holds = show-Sound x.endpoint_id (shown display) s (u, h) }))

pub ensure_proxy-Sound :
    (s : Store) (now : ℕ) (peer_id remote : Opaque) (display : Option Text) (fresh : Opaque)
    → NoMail fresh s
    → Sound s
    → Sound (ensure_proxy s now peer_id remote display fresh).1
ensure_proxy-Sound s now peer_id remote display fresh n h =
    (ensure_proxy-After s now peer_id remote display fresh n h).holds
