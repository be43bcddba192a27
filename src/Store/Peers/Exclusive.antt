-- ===== src/Store/Peers/Exclusive.antt =====
-- A lease excludes every other bridge, and takes back what the last one had claimed.
use vvagent.Base.{
  ℕ, ◌≡◌, ◌≢◌, ◌<◌, max, refl, sym, ap, subst, ◌∙◌, inl, inr, Bool, true, false, not, ◌&&◌, Option,
  none, some, arith, codes, if◌then◌else◌, find, option_eq, lt→ltb, In, Bool-cases, find-In,
  and-eq-true,
}
use vvagent.Base.Int.{ℤ, pos_part}
use vvagent.Error.{Result, ok, err, MeshError, new, claim_lost}
use vvagent.Identity.Opaque.{Opaque, opaque_eq, opaque_eq_refl, ne→opaque_eq}
use vvagent.Store.Tables.{Store, Message, PeerRow, LeaseAnchor, saturating_add}
use vvagent.Store.Rows.{update, find-update}
use vvagent.Store.Queries.{require_live_lease}
use vvagent.Store.Unbinding.{held_by}
use vvagent.Store.Releasing.{In-released}
use vvagent.Store.Branches.{Sat, on_if, on_option}
use vvagent.Store.Peers.Pins.{known_as}
use vvagent.Store.Peers.Leases.{
  acquire_peer_lease, grant_lease, requeue_proxy_claims, requeue_last, is_proxy_of, grant, has_id,
  owner_of, held_by_other, lease_is_live,
}

-- A peer whose row holds this lease lets its owner act, while it lasts, and no one else.
leased-excludes :
    (t : Store) (peer owner : Opaque) (expires later : ℕ) (p : PeerRow)
    → find (known_as peer) t.peers ≡ some p
    → p.lease ≡ some (owner, expires)
    → (later < expires → require_live_lease t later peer owner ≡ ok tt)
      × ((other : Opaque)
          → other ≢ owner
          → (e : MeshError) × (require_live_lease t later peer other ≡ err e)
            × (e.code ≡ claim_lost))
unfolding require_live_lease
leased-excludes t peer owner expires later p found held = (
  λ soon.
      rw (found, require_live_lease)
        (rw held (rw (opaque_eq_refl owner) (rw (lt→ltb later expires soon) refl))),
  λ other far. (
    new claim_lost (codes "this bridge no longer holds the peer's lease"),
    rw (found, require_live_lease)
        (rw held (rw (ne→opaque_eq owner other (λ q. far (sym q))) refl)),
    refl,
  ),
)

module _ (now : ℕ) (peer owner : Opaque) (anchor : Option LeaseAnchor) (ttl_ms : ℤ) (p : PeerRow)
    (s : Store) where
  abbrev lease_end : ℕ
  lease_end = saturating_add now (max (pos_part ttl_ms) 1)

  -- What is asked of a granted lease.
  record Granted (t : Store) : Type 0 where
    peers_are : t.peers ≡ update (has_id peer) (grant owner lease_end anchor) s.peers
    requeued :
        (other : Opaque) (expires : ℕ) (m : Message)
        → p.lease ≡ some (other, expires)
        → other ≢ owner
        → In m t.messages
        → is_proxy_of s peer m.to_endpoint ≡ true
        → held_by other m ≡ false

  requeue_proxy_claims-none :
      (other : Opaque) (m : Message)
      → In m (requeue_proxy_claims peer other s).messages
      → is_proxy_of s peer m.to_endpoint ≡ true
      → held_by other m ≡ false
  unfolding requeue_proxy_claims
  requeue_proxy_claims-none other m i ours =
      elim (In-released (λ n. held_by other n && is_proxy_of s peer n.to_endpoint) m s.messages i) [
        | inl miss ↦ ground (arith, ours)
        | inr free ↦ free other
      ]

  requeue_last-peers :
      (last : Option (Opaque × ℕ)) → (requeue_last peer owner last s).peers ≡ s.peers
  unfolding requeue_last requeue_proxy_claims
  requeue_last-peers none = refl
  requeue_last-peers (some l) = elim (Bool-cases (opaque_eq l.0 owner)) [
    | inl own ↦ rw own refl
    | inr other ↦ rw other refl
  ]

  requeue_last-none :
      (last : Option (Opaque × ℕ)) (other : Opaque) (expires : ℕ) (m : Message)
      → last ≡ some (other, expires)
      → other ≢ owner
      → In m (requeue_last peer owner last s).messages
      → is_proxy_of s peer m.to_endpoint ≡ true
      → held_by other m ≡ false
  unfolding requeue_last
  requeue_last-none none other expires m h far i ours = cc
  requeue_last-none (some l) other expires m h far i ours =
      let who : l.0 ≡ other = cc in
      requeue_proxy_claims-none other m
        (subst (λ (o : Opaque). In m (requeue_proxy_claims peer o s).messages) who
          (rw (ne→opaque_eq l.0 owner (λ q. far (sym who ∙ q))) at i))
        ours

  grant_lease-Granted : Granted (grant_lease now peer owner anchor ttl_ms p s)
  unfolding grant_lease
  grant_lease-Granted = elim (Bool-cases (option_eq opaque_eq (owner_of p) (some owner))) [
    | inl renews ↦ rw renews (record {
      peers_are =
          ap (update (has_id peer) (grant owner lease_end anchor)) (requeue_last-peers p.lease);
      requeued = requeue_last-none p.lease;
    })
    | inr takes ↦ rw takes (record {
      peers_are =
          ap (update (has_id peer) (grant owner lease_end anchor)) (requeue_last-peers p.lease);
      requeued = requeue_last-none p.lease;
    })
  ]

module _ (s : Store) (now : ℕ) (peer owner : Opaque) (anchor : Option LeaseAnchor)
    (ttl_ms : ℤ) where
  acquire-Sat :
      Sat {B = Result Bool}
        (λ x.
          (p : PeerRow)
          → find (known_as peer) s.peers ≡ some p
          → x.0 ≡ ok true
          → Granted now peer owner anchor ttl_ms p s x.1)
        (acquire_peer_lease s now peer owner anchor ttl_ms)
  unfolding acquire_peer_lease
  acquire-Sat =
      on_option (find (known_as peer) s.peers) _ _ (λ k. record { holds = λ p q r. cc })
        (λ p k.
          on_if (held_by_other owner p && lease_is_live now p)
            (λ q. record { holds = λ p' q' r. cc })
            (λ q. record {
              holds = λ p' q' r.
                  let same : p ≡ p' = cc in
                  subst
                    (λ (x : PeerRow).
                      Granted now peer owner anchor ttl_ms x s
                        (grant_lease now peer owner anchor ttl_ms p s))
                    same (grant_lease-Granted now peer owner anchor ttl_ms p s);
            }))

  -- A bridge that acquires a peer's lease may act for the peer until the lease ends, and from then on
  -- every other bridge is refused as having lost it; what the last owner of the lease had claimed on
  -- the outboxes of the peer is no longer claimed by it.
  pub acquire_peer_lease-excludes :
      (p : PeerRow) (later : ℕ)
      → find (known_as peer) s.peers ≡ some p
      → (acquire_peer_lease s now peer owner anchor ttl_ms).0 ≡ ok true
      → let t = (acquire_peer_lease s now peer owner anchor ttl_ms).1 in
        (later < saturating_add now (max (pos_part ttl_ms) 1)
          → require_live_lease t later peer owner ≡ ok tt)
        × ((other : Opaque)
            → other ≢ owner
            → (e : MeshError) × (require_live_lease t later peer other ≡ err e)
              × (e.code ≡ claim_lost))
        × ((other : Opaque) (expires : ℕ) (m : Message)
            → p.lease ≡ some (other, expires)
            → other ≢ owner
            → In m t.messages
            → is_proxy_of s peer m.to_endpoint ≡ true
            → held_by other m ≡ false)
  acquire_peer_lease-excludes p later found h =
      let t = (acquire_peer_lease s now peer owner anchor ttl_ms).1 in
      let granted = acquire-Sat.holds p found h in
      let ends = saturating_add now (max (pos_part ttl_ms) 1) in
      let row : find (known_as peer) t.peers ≡ some (grant owner ends anchor p) =
        ap (find (known_as peer)) granted.peers_are
        ∙ find-update (known_as peer) (has_id peer) (grant owner ends anchor) p s.peers (λ x. refl)
            found
        ∙ ap (λ (b : Bool). some (if b then grant owner ends anchor p else p))
            (and-eq-true (opaque_eq p.peer_id peer) (not p.retired)
              (find-In (known_as peer) s.peers p found).1).0 in
      let (may, others) =
        leased-excludes t peer owner ends later (grant owner ends anchor p) row refl in
      (may, others, granted.requeued)
