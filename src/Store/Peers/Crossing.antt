-- ===== src/Store/Peers/Crossing.antt =====
-- What a reference means on the two hosts that it crosses between.
use vvagent.Base.{ℕ, ◌≡◌, refl, sym, ap, subst, inl, inr, Option, none, some, Text, Bool-cases}
use vvagent.Bridge.Frame.{WireRef, sender, recipient}
use vvagent.Error.{ok}
use vvagent.Identity.Opaque.{Opaque, opaque_eq, opaque_eq→≡, opaque_eq_refl}
use vvagent.Message.Ref.{Ref, file, pane, media}
use vvagent.Store.Peers.Inbound.{localize_ref}
use vvagent.Store.Peers.Outbound.{wire_ref}

wire_ref-own :
    (peer : Opaque) (path : Text) (sum : Option Text) (size : Option ℕ)
    → wire_ref peer (file path sum size (some peer))
      ≡ ok (record { on = recipient; reference = file path sum size none })
unfolding wire_ref
wire_ref-own peer path sum size = rw (opaque_eq_refl peer) refl

-- A reference that is sent to a peer and sent back by it is the one that left: a file of this host
-- comes back as one of this host, and one of the peer's as one of the peer's. `theirs` is how this
-- host knows the peer, and `ours` how the peer knows this host.
pub localize_ref-wire_ref :
    (theirs ours : Opaque) (r : Ref) (w : WireRef)
    → wire_ref theirs r ≡ ok w
    → (back : WireRef) × (wire_ref ours (localize_ref ours w) ≡ ok back)
      × (localize_ref theirs back ≡ r)
unfolding localize_ref wire_ref
localize_ref-wire_ref theirs ours (file path sum size none) w h =
    let same : record { on = sender; reference = file path sum size none } ≡ w = cc in
    (
      record { on = recipient; reference = file path sum size none },
      subst
          (λ (x : WireRef).
            wire_ref ours (localize_ref ours x)
            ≡ ok (record { on = recipient; reference = file path sum size none }))
          same (wire_ref-own ours path sum size),
      refl,
    )
localize_ref-wire_ref theirs ours (file path sum size (some host)) w h =
    elim (Bool-cases (opaque_eq host theirs)) [
      | inl mine ↦
          let same : record { on = recipient; reference = file path sum size none } ≡ w =
            cc (rw mine at h) in
          (
            record { on = sender; reference = file path sum size none },
            subst
                (λ (x : WireRef).
                  wire_ref ours (localize_ref ours x)
                  ≡ ok (record { on = sender; reference = file path sum size none }))
                same refl,
            ap (λ (a : Opaque). file path sum size (some a)) (sym (opaque_eq→≡ host theirs mine)),
          )
      | inr third ↦ cc (rw third at h)
    ]
localize_ref-wire_ref theirs ours (pane instance p) w h =
    let same : record { on = sender; reference = pane instance p } ≡ w = cc in
    (
      record { on = sender; reference = pane instance p },
      subst
          (λ (x : WireRef).
            wire_ref ours (localize_ref ours x)
            ≡ ok (record { on = sender; reference = pane instance p }))
          same refl,
      refl,
    )
localize_ref-wire_ref theirs ours (media instance id binding) w h =
    let same : record { on = sender; reference = media instance id binding } ≡ w = cc in
    (
      record { on = sender; reference = media instance id binding },
      subst
          (λ (x : WireRef).
            wire_ref ours (localize_ref ours x)
            ≡ ok (record { on = sender; reference = media instance id binding }))
          same refl,
      refl,
    )
