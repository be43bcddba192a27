-- ===== src/Capability/Laws.antt =====
-- A gate only removes capabilities, and what is left decides how a message is delivered.
use vvagent.Base.{
  ◌≡◌, sym, subst, ◌↔◌, inl, inr, Bool, true, false, not, List, [], ◌∷◌, arith, Text, if◌then◌else◌,
  keep, In, here, there, In-cons, In-keep, In-keep_of, Bool-cases, or-eq-true,
}
use vvagent.Capability.Name.{
  Capability, capability_eq, capability_eq→≡, capability_eq_refl, structured_pull,
  external_turn_start,
}
use vvagent.Capability.Mode.{activates, activate_and_pull}
use vvagent.Capability.Defs.{
  Capabilities, actuating, contains, has, note, withdraw_actuating, delivery_mode,
}

contains_iff : (cs : List Capability) (c : Capability) → (contains cs c ≡ true) ↔ In c cs
contains_iff [] c = ((λ h. cc), (λ m. elim m [ ]))
contains_iff (d ∷ cs) c = (
  λ h. elim (or-eq-true (capability_eq d c) (contains cs c) h) [
    | inl e ↦ subst (λ y. In y (d ∷ cs)) (capability_eq→≡ d c e) here
    | inr e ↦ there ((contains_iff cs c).0 e)
  ],
  λ m. elim (In-cons m) [
    | inl e ↦ rw e (ground (arith, capability_eq_refl d))
    | inr m' ↦ ground (arith, (contains_iff cs c).1 m')
  ],
)

granted-note : (c : Capabilities) (t : Text) → (note c t).granted ≡ c.granted
unfolding note
granted-note c t = ground arith

if-granted :
    (b : Bool) (x y : Capabilities) (cs : List Capability)
    → x.granted ≡ cs
    → y.granted ≡ cs
    → (if b then x else y).granted ≡ cs
if-granted true x y cs h k = h
if-granted false x y cs h k = k

granted-withdraw :
    (c : Capabilities) (why : Text)
    → (withdraw_actuating c why).granted ≡ keep (λ d. not (contains actuating d)) c.granted
unfolding withdraw_actuating
granted-withdraw c why = if-granted _ _ _ _ (granted-note _ _) (granted-note _ _)

passive : (d : Capability) → ¬ In d actuating → not (contains actuating d) ≡ true
passive d h = elim (Bool-cases (contains actuating d)) [
  | inl e ↦ absurd (h ((contains_iff actuating d).0 e))
  | inr e ↦ rw e
]

-- Withdrawing removes exactly the capabilities that make a provider act, and grants nothing new.
pub withdraw_actuating_iff :
    (c : Capabilities) (why : Text) (d : Capability)
    → In d (withdraw_actuating c why).granted ↔ (In d c.granted × ¬ In d actuating)
withdraw_actuating_iff c why d = (
  λ m.
      let (i, h) =
        In-keep (λ d. not (contains actuating d)) d c.granted
          (subst (In d) (granted-withdraw c why) m) in
      (i, λ a. let e = (contains_iff actuating d).1 a in ground arith),
  λ h.
      subst (In d) (sym (granted-withdraw c why))
        (In-keep_of (λ d. not (contains actuating d)) d c.granted h.0 (passive d h.1)),
)

has_iff : (c : Capabilities) (d : Capability) → (has c d ≡ true) ↔ In d c.granted
unfolding has
has_iff c d = contains_iff c.granted d

module _ (c : Capabilities) where
  wakes : activates (delivery_mode c) ≡ true → has c external_turn_start ≡ true
  unfolding delivery_mode
  wakes h = ground arith

  woken : has c external_turn_start ≡ true → activates (delivery_mode c) ≡ true
  unfolding delivery_mode
  woken h = ground arith

  pulls :
      delivery_mode c ≡ activate_and_pull
      → (has c external_turn_start ≡ true) × (has c structured_pull ≡ true)
  unfolding delivery_mode
  pulls h = ground arith

  pulled :
      has c external_turn_start ≡ true
      → has c structured_pull ≡ true
      → delivery_mode c ≡ activate_and_pull
  unfolding delivery_mode
  pulled h k = ground arith

-- A provider can be woken exactly when it has the external turn start, and its mode carries no
-- payload exactly when it has the mailbox tools as well.
pub delivery_mode_iff :
    (c : Capabilities)
    → ((activates (delivery_mode c) ≡ true) ↔ In external_turn_start c.granted)
      × ((delivery_mode c ≡ activate_and_pull)
          ↔ (In external_turn_start c.granted × In structured_pull c.granted))
delivery_mode_iff c = (
  (
    λ h. (has_iff c external_turn_start).0 (wakes c h),
    λ m. woken c ((has_iff c external_turn_start).1 m),
  ),
  (
    λ h.
        let (a, b) = pulls c h in
        ((has_iff c external_turn_start).0 a, (has_iff c structured_pull).0 b),
    λ m. pulled c ((has_iff c external_turn_start).1 m.0) ((has_iff c structured_pull).1 m.1),
  ),
)

-- Nothing that was withdrawn can start a turn: afterwards the message waits.
pub delivery_mode-withdraw :
    (c : Capabilities) (why : Text) → activates (delivery_mode (withdraw_actuating c why)) ≡ false
delivery_mode-withdraw c why =
    elim (Bool-cases (activates (delivery_mode (withdraw_actuating c why)))) [
      | inl e ↦
          let m = (delivery_mode_iff (withdraw_actuating c why)).0.0 e in
          absurd (((withdraw_actuating_iff c why external_turn_start).0 m).1 here)
      | inr e ↦ e
    ]
