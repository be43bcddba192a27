-- ===== src/Store/Examples/Hosts.antt =====
-- A peer host that is pinned, whose lease passes to another bridge, and that is retired.
use vvagent.Base.{
  ℕ, ◌≡◌, ◌≢◌, ◌<◌, refl, [], ◌∷◌, none, some, arith, codes, In, In-nil, here, false, true, find,
  text_eq,
}
use vvagent.Base.Int.{pos}
use vvagent.Bridge.Frame.{WireRef, sender}
use vvagent.Error.{ok, err, MeshError, claim_lost}
use vvagent.Identity.Opaque.{Opaque, opaque_eq}
use vvagent.Identity.PeerLabel
use vvagent.Identity.PeerLabel.{PeerLabel}
use vvagent.Message.Ref.{Ref, file}
use vvagent.Message.State.{is_pending}
use vvagent.Store.Receive.{is_queued}
use vvagent.Store.Tables.{Store, Message, PeerRow, ProxyRow, find_peer}
use vvagent.Store.Queries.{require_live_lease, recount}
use vvagent.Store.Unbinding.{held_by}
use vvagent.Store.Peers.Pins.{pin_peer, pinned_row, labelled, known_as}
use vvagent.Store.Peers.Leases.{acquire_peer_lease, grant_lease, is_proxy_of}
use vvagent.Store.Peers.Retire.{
  retire_peer, retire_each, retire_proxy, withdraw_each, lose_each, lose, proxies_of,
}
use vvagent.Store.Peers.Inbound.{localize_ref}
use vvagent.Store.Peers.Outbound.{wire_ref}
use vvagent.Store.Peers.Resolutions.{question, answer_resolution}
use vvagent.Store.Tables.{Answer}
use vvagent.Store.Peers.Exclusive.{acquire_peer_lease-excludes}
use vvagent.Store.Peers.Pinned.{Pinned, pin_peer-Pinned, pin_peer-pin_peer}
use vvagent.Store.Peers.Crossing.{localize_ref-wire_ref}
use vvagent.Store.Peers.Emptied.{retire_peer-settles}
use vvagent.Store.Examples.{id, empty}
use vvagent.Store.Examples.Claims.{taken}

abbrev den : PeerLabel
den = record { chars = codes "den" }

abbrev den_row : PeerRow
den_row = pinned_row den (id 50) (id 51)

empty-Pinned : Pinned empty
empty-Pinned = record {
  one_label = λ p q l i j a b. absurd (In-nil i);
  one_host = λ p q host i j a b. absurd (In-nil i);
  not_this = λ p i. absurd (In-nil i);
}

pin_peer-Pinned_example : Pinned (pin_peer empty 5 den (id 50) (id 51)).1
pin_peer-Pinned_example = pin_peer-Pinned empty 5 den (id 50) (id 51) empty-Pinned

abbrev pinned : Store
pinned = (pin_peer empty 5 den (id 50) (id 51)).1

den-pinned : (pin_peer empty 5 den (id 50) (id 51)).0 ≡ ok den_row
unfolding pin_peer opaque_eq text_eq find_peer PeerLabel.as_str codes
den-pinned = refl

hosts-differ : id 60 ≢ id 50
hosts-differ e = ground arith

pin_peer-pin_peer_example :
    (e : MeshError) × (pin_peer pinned 6 den (id 60) (id 61) ≡ (err e, pinned))
pin_peer-pin_peer_example =
    pin_peer-pin_peer empty 5 6 den (id 50) (id 60) (id 51) (id 61) den_row den-pinned hosts-differ

-- The lease of the first bridge ended at 10; its proxy `id 1` holds a message.
abbrev pub leased_row : PeerRow
leased_row = record den_row { lease = some (id 2, 10) }

abbrev pub agent_there : ProxyRow
agent_there = record {
  endpoint_id = id 1;
  peer_id = id 51;
  remote_endpoint_id = id 52;
  display = none;
}

abbrev leased : Store
leased = record empty { peers = leased_row ∷ []; proxies = agent_there ∷ []; messages = taken ∷ [] }

leased-found : find (known_as (id 51)) leased.peers ≡ some leased_row
unfolding opaque_eq text_eq
leased-found = refl

lease-acquired : (acquire_peer_lease leased 20 (id 51) (id 42) none (pos 100)).0 ≡ ok true
unfolding acquire_peer_lease grant_lease opaque_eq text_eq
lease-acquired = refl

abbrev passed_on : Store
passed_on = (acquire_peer_lease leased 20 (id 51) (id 42) none (pos 100)).1

acquire_peer_lease-excludes_example :
    (30 < 120 → require_live_lease passed_on 30 (id 51) (id 42) ≡ ok tt)
    × ((other : Opaque)
        → other ≢ id 42
        → (e : MeshError) × (require_live_lease passed_on 30 (id 51) other ≡ err e)
          × (e.code ≡ claim_lost))
    × ((other : Opaque) (expires : ℕ) (m : Message)
        → leased_row.lease ≡ some (other, expires)
        → other ≢ id 42
        → In m passed_on.messages
        → is_proxy_of leased (id 51) m.to_endpoint ≡ true
        → held_by other m ≡ false)
acquire_peer_lease-excludes_example =
    acquire_peer_lease-excludes leased 20 (id 51) (id 42) none (pos 100) leased_row 30 leased-found
      lease-acquired

abbrev notes : Ref
notes = file (codes "/notes") none none none

abbrev sent_notes : WireRef
sent_notes = record { on = sender; reference = notes }

notes-sent : wire_ref (id 51) notes ≡ ok sent_notes
unfolding wire_ref
notes-sent = refl

localize_ref-wire_ref_example :
    (back : WireRef) × (wire_ref (id 70) (localize_ref (id 70) sent_notes) ≡ ok back)
    × (localize_ref (id 51) back ≡ notes)
localize_ref-wire_ref_example = localize_ref-wire_ref (id 51) (id 70) notes sent_notes notes-sent

den-found : find (labelled den) leased.peers ≡ some leased_row
unfolding text_eq PeerLabel.as_str codes
den-found = refl

abbrev lost_task : Message
lost_task = lose taken

agent_there-In : In agent_there (proxies_of (id 51) leased)
unfolding opaque_eq text_eq
agent_there-In = here

lost_task-In : In lost_task (retire_peer leased 30 den).1.messages
unfolding retire_peer retire_each retire_proxy withdraw_each lose_each recount opaque_eq text_eq
    PeerLabel.as_str codes
lost_task-In = here

retire_peer-settles_example :
    (id 1 ≡ id 1 → is_pending lost_task.state ≡ false)
    × (lost_task.from_principal.endpoint_id ≡ some (id 1) → is_queued lost_task.state ≡ false)
retire_peer-settles_example =
    retire_peer-settles leased 30 den leased_row agent_there lost_task den-found agent_there-In
      lost_task-In

abbrev asking : Store
asking = record pinned { resolutions = question pinned 7 (id 51) (codes "builder") ∷ [] }

abbrev found_there : Answer
found_there = Answer.names (id 52) none

abbrev told : Store
told = (answer_resolution asking (id 51) 1 found_there).1
