-- ===== src/Store/Reachable.antt =====
-- agent-mesh-store/src/lib.rs: the store over any sequence of operations.
use vvagent.Base.{ℕ, refl, Bool, not, ◌==◌, List, Option, Text, find, is_some}
use vvagent.Base.Int.{ℤ}
use vvagent.Address.Defs.{Address}
use vvagent.Bridge.Frame.{Deliver}
use vvagent.Capability.Defs.{Capabilities}
use vvagent.Capability.Mode.{DeliveryMode}
use vvagent.Error.{ErrorCode}
use vvagent.Identity.AgentState.{AgentState}
use vvagent.Identity.Opaque.{Opaque, opaque_eq}
use vvagent.Identity.PeerLabel.{PeerLabel}
use vvagent.Message.Outcome.{Outcome}
use vvagent.Message.Ref.{Ref}
use vvagent.Message.State.{State}
use vvagent.Message.Draft.{Draft}
use vvagent.Policy.Defs.{Policy, Rule}
use vvagent.Store.Tables.{Store, Caller, LeaseAnchor, is_message, find_peer}
use vvagent.Store.Rows.{changed}
use vvagent.Store.Send.{send_as}
use vvagent.Store.Receive.{claim_as}
use vvagent.Store.Ending.{cancel, sweep}
use vvagent.Store.Respond.{respond, confirm_interrupt}
use vvagent.Store.Binding.{Binding, bind}
use vvagent.Store.Unbinding.{unbind, ensure_local_user}
use vvagent.Store.Directory.{
  set_state, set_capabilities, set_address, set_policy, with_capabilities, with_address,
  with_policy,
}
use vvagent.Store.Activation.{record_activation, attempt}
use vvagent.Store.Groups.{attach_to_group_send, tie}
use vvagent.Store.Peers.Pins.{pin_peer, set_peer_trust, labelled, on_host}
use vvagent.Store.Peers.Leases.{acquire_peer_lease, release_peer_lease}
use vvagent.Store.Peers.Proxies.{ensure_proxy}
use vvagent.Store.Peers.Retire.{retire_peer}
use vvagent.Store.Peers.Inbound.{ingest}
use vvagent.Store.Peers.Outbound.{settle_outbound, confirm_remote_cancel}
use vvagent.Store.Branches.{After, on_if, on_option}
use vvagent.Store.Counting.{Counted, update-Counted}
use vvagent.Store.Settling.{Unique, cancel-Counted, update-Unique}
use vvagent.Store.Accounting.{send_as-Counted}
use vvagent.Store.Sweeping.{sweep-Counted}
use vvagent.Store.Claims.{claim_as-Counted}
use vvagent.Store.Retiring.{confirm_interrupt-Counted}
use vvagent.Store.Responding.{respond-Counted, send_as-Unique}
use vvagent.Store.Keeping.{
  sweep-Unique, claim_as-Unique, respond-Unique, cancel-Unique, confirm-Unique,
}
use vvagent.Store.Lifecycle.{
  Sound, NoMail, bind-Sound, unbind-Sound, ensure_local_user-Sound, change_endpoint-Sound,
  set_state-Sound,
}
use vvagent.Store.Peers.Kept.{
  acquire_peer_lease-Sound, release_peer_lease-Sound, ensure_proxy-Sound,
}
use vvagent.Store.Peers.Emptying.{retire_peer-Sound}
use vvagent.Store.Peers.Carrying.{ingest-Sound, settle_outbound-Sound, confirm_remote_cancel-Sound}

record_activation-Sound :
    (s : Store) (now : ℕ) (id endpoint : Opaque) (mode : DeliveryMode) (rule : Rule)
    (outcome : Text)
    → Sound s
    → Sound (record_activation s now id endpoint mode rule outcome)
unfolding record_activation
record_activation-Sound s now id endpoint mode rule outcome (u, h) = (
  update-Unique (is_message id) (attempt now) s (λ m. refl) u,
  update-Counted (is_message id) (attempt now) s (λ to m i e. (refl, refl)) h,
)

attach_to_group_send-Sound :
    (s : Store) (id send : Opaque) → Sound s → Sound (attach_to_group_send s id send)
unfolding attach_to_group_send
attach_to_group_send-Sound s id send (u, h) = (
  update-Unique (is_message id) (tie send) s (λ m. refl) u,
  update-Counted (is_message id) (tie send) s (λ to m i e. (refl, refl)) h,
)

pin-After :
    (s : Store) (now : ℕ) (l : PeerLabel) (host fresh : Opaque)
    → Sound s
    → After Sound (pin_peer s now l host fresh)
unfolding pin_peer
pin-After s now l host fresh h =
    on_if (opaque_eq host s.host_id) (λ q. record { holds = h })
      (λ q.
        on_option (find (labelled l) s.peers) _ _
          (λ k.
            on_option (find (on_host host) s.peers) _ _
              (λ j.
                on_if (is_some (find_peer s fresh)) (λ q. record { holds = h })
                  (λ q. record { holds = h }))
              (λ other j. record { holds = h }))
          (λ p k.
            on_if (not (opaque_eq p.host_id host)) (λ q. record { holds = h })
              (λ q. record { holds = h })))

trust-After :
    (s : Store) (l : PeerLabel) (trusted : Bool)
    → Sound s
    → After Sound (set_peer_trust s l trusted)
unfolding set_peer_trust
trust-After s l trusted h =
    on_if (changed (labelled l) s.peers == 0) (λ q. record { holds = h })
      (λ q. record { holds = h })

module _ (is_absolute : Text → Bool) (refs_json : List Ref → Option Text)
    (sha256 : List ℕ → List ℕ) where
  -- One operation on the store, with whatever it is given. An endpoint that is minted is one that no
  -- message is addressed to.
  pub data Step : Store → Store → Type 0 where
    sends :
        {s : Store} (now : ℕ) (a b : Opaque) (c : Caller) (d : Draft) (origin : Option Opaque)
        → Step s (send_as is_absolute refs_json sha256 now a b c d origin s).1
    claims :
        {s : Store} (now : ℕ) (c : Caller) (lease_ms : Option ℤ) (consumes : Bool)
        → Step s (claim_as s now c lease_ms consumes).1
    responds :
        {s : Store} (now later : ℕ) (a b : Opaque) (c : Caller) (id : Opaque) (outcome : Outcome)
        (text : Text) (refs : List Ref) (key : Text)
        → Step s (respond is_absolute refs_json sha256 s now later a b c id outcome text refs key).1
    cancels : {s : Store} (now : ℕ) (c : Caller) (id : Opaque) → Step s (cancel s now c id).1
    sweeps : {s : Store} (now : ℕ) → Step s (sweep now s).1
    confirms :
        {s : Store} (now : ℕ) (id incarnation : Opaque)
        → Step s (confirm_interrupt s now id incarnation).1
    binds :
        {s : Store} (now : ℕ) (b : Binding) (token_bytes : Option (List ℕ)) (incarnation a : Opaque)
        → NoMail a s
        → Step s (bind sha256 s now b token_bytes incarnation a).1
    unbinds : {s : Store} (now : ℕ) (id incarnation : Opaque) → Step s (unbind s now id incarnation)
    ensures_local_user :
        {s : Store} (now : ℕ) (a : Opaque) → NoMail a s → Step s (ensure_local_user s now a).1
    sets_state : {s : Store} (id : Opaque) (state : AgentState) → Step s (set_state s id state).1
    sets_capabilities :
        {s : Store} (id : Opaque) (c : Capabilities) → Step s (set_capabilities s id c).1
    sets_address : {s : Store} (id : Opaque) (at : Option Address) → Step s (set_address s id at).1
    sets_policy : {s : Store} (id : Opaque) (p : Policy) → Step s (set_policy s id p).1
    records_activation :
        {s : Store} (now : ℕ) (id endpoint : Opaque) (mode : DeliveryMode) (rule : Rule)
        (outcome : Text)
        → Step s (record_activation s now id endpoint mode rule outcome)
    attaches_to_group_send :
        {s : Store} (id send : Opaque) → Step s (attach_to_group_send s id send)
    pins :
        {s : Store} (now : ℕ) (l : PeerLabel) (host a : Opaque) → Step s (pin_peer s now l host a).1
    trusts : {s : Store} (l : PeerLabel) (trusted : Bool) → Step s (set_peer_trust s l trusted).1
    acquires :
        {s : Store} (now : ℕ) (peer_id owner : Opaque) (anchor : Option LeaseAnchor) (ttl_ms : ℤ)
        → Step s (acquire_peer_lease s now peer_id owner anchor ttl_ms).1
    releases :
        {s : Store} (now : ℕ) (peer_id owner : Opaque)
        → Step s (release_peer_lease s now peer_id owner)
    ensures_proxy :
        {s : Store} (now : ℕ) (peer_id remote : Opaque) (display : Option Text) (a : Opaque)
        → NoMail a s
        → Step s (ensure_proxy s now peer_id remote display a).1
    retires : {s : Store} (now : ℕ) (l : PeerLabel) → Step s (retire_peer s now l).1
    ingests :
        {s : Store} (clock : ℕ → ℕ) (a b : Opaque) (peer_id : Opaque) (d : Deliver)
        (owner x : Opaque)
        → NoMail x s
        → Step s (ingest is_absolute refs_json sha256 clock a b peer_id d owner x s).1
    settles :
        {s : Store} (checked now : ℕ) (c : Caller) (id : Opaque) (failure : Option ErrorCode)
        → Step s (settle_outbound s checked now c id failure).1
    confirms_remote_cancel :
        {s : Store} (checked now : ℕ) (c : Caller) (id : Opaque) (state : State)
        → Step s (confirm_remote_cancel s checked now c id state).1

  -- Any sequence of operations.
  pub data Steps : Store → Store → Type 0 where
    stays : {s : Store} → Steps s s
    goes : {s t r : Store} → Step s t → Steps t r → Steps s r

  -- The operations on a message of this host.
  Step-Sound : {s t : Store} → Step s t → Sound s → Sound t
  Step-Sound {s} (sends now a b c d origin) (u, h) = (
    send_as-Unique is_absolute refs_json sha256 now a b c d origin s u,
    send_as-Counted is_absolute refs_json sha256 now a b c d origin s h,
  )
  Step-Sound {s} (claims now c lease_ms consumes) (u, h) = (
    (claim_as-Unique s now c lease_ms consumes u).holds,
    claim_as-Counted s now c lease_ms consumes u h,
  )
  Step-Sound {s} (responds now later a b c id outcome text refs key) (u, h) = (
    (respond-Unique is_absolute refs_json sha256 s now later a b c id outcome text refs key
        u).holds,
    respond-Counted is_absolute refs_json sha256 s now later a b c id outcome text refs key u h,
  )
  Step-Sound {s} (cancels now c id) (u, h) =
      ((cancel-Unique s now c id u).holds, cancel-Counted s now c id u h)
  Step-Sound {s} (sweeps now) (u, h) = (sweep-Unique now s u, sweep-Counted now s h)
  Step-Sound {s} (confirms now id incarnation) (u, h) = (
    (confirm-Unique s now id incarnation u).holds,
    confirm_interrupt-Counted s now id incarnation u h,
  )
  Step-Sound {s} (binds now b token_bytes incarnation a n) h =
      bind-Sound sha256 s now b token_bytes incarnation a n h
  Step-Sound {s} (unbinds now id incarnation) h = unbind-Sound s now id incarnation h
  Step-Sound {s} (ensures_local_user now a n) h = ensure_local_user-Sound s now a n h
  Step-Sound {s} (sets_state id state) h = set_state-Sound s id state h
  Step-Sound {s} (sets_capabilities id c) h =
      unfold set_capabilities in
      change_endpoint-Sound (with_capabilities c) s id (λ e. (refl, refl, refl)) h
  Step-Sound {s} (sets_address id at) h =
      unfold set_address in change_endpoint-Sound (with_address at) s id (λ e. (refl, refl, refl)) h
  Step-Sound {s} (sets_policy id p) h =
      unfold set_policy in change_endpoint-Sound (with_policy p) s id (λ e. (refl, refl, refl)) h
  Step-Sound {s} (records_activation now id endpoint mode rule outcome) h =
      record_activation-Sound s now id endpoint mode rule outcome h
  Step-Sound {s} (attaches_to_group_send id send) h = attach_to_group_send-Sound s id send h
  Step-Sound {s} (pins now l host a) h = (pin-After s now l host a h).holds
  Step-Sound {s} (trusts l trusted) h = (trust-After s l trusted h).holds
  Step-Sound {s} (acquires now peer_id owner anchor ttl_ms) h =
      acquire_peer_lease-Sound s now peer_id owner anchor ttl_ms h
  Step-Sound {s} (releases now peer_id owner) h = release_peer_lease-Sound s now peer_id owner h
  Step-Sound {s} (ensures_proxy now peer_id remote display a n) h =
      ensure_proxy-Sound s now peer_id remote display a n h
  Step-Sound {s} (retires now l) h = retire_peer-Sound s now l h
  Step-Sound {s} (ingests clock a b peer_id d owner x n) h =
      ingest-Sound is_absolute refs_json sha256 clock a b peer_id d owner x s n h
  Step-Sound {s} (settles checked now c id failure) h =
      settle_outbound-Sound s checked now c id failure h
  Step-Sound {s} (confirms_remote_cancel checked now c id state) h =
      confirm_remote_cancel-Sound s checked now c id state h

  -- Over any sequence of the operations that write endpoints, messages or peers, by any callers and
  -- at any times, message ids stay unique and each endpoint's counters stay the number and the bytes
  -- of the pending messages to it, where an endpoint that is minted is one that no message is
  -- addressed to.
  pub Steps-Counted : {s t : Store} → Steps s t → Unique s → Counted s → Unique t × Counted t
  Steps-Counted stays u h = (u, h)
  Steps-Counted (goes x xs) u h = let (u', h') = Step-Sound x (u, h) in Steps-Counted xs u' h'
