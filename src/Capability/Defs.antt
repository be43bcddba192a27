-- ===== src/Capability/Defs.antt =====
-- `Capabilities` and its methods.
use vvagent.Base.{
  Bool, not, List, [], ◌∷◌, ◌++◌, map, Option, Text, if◌then◌else◌, codes, any, keep, is_empty,
  text_eq,
}
use vvagent.Capability.Name
use vvagent.Capability.Name.{
  Capability, capability_eq, structured_pull, after_turn_continue, external_turn_start,
  external_interrupt,
}
use vvagent.Capability.Mode.{
  DeliveryMode, activate_and_pull, activate_with_payload, pull_only, queued,
}

pub record Capabilities : Type 0 where
  pub provider : Option Text
  pub version : Option Text
  pub native_session : Option Text
  pub granted : List Capability
  pub notes : List Text

abbrev pub actuating : List Capability
actuating = external_turn_start ∷ external_interrupt ∷ after_turn_continue ∷ []

abbrev pub contains : List Capability → Capability → Bool
contains cs c = any (λ d. capability_eq d c) cs

unfoldable pub has : Capabilities → Capability → Bool
has c capability = contains c.granted capability

unfoldable pub note : Capabilities → Text → Capabilities
note c text =
    if any (λ n. text_eq n text) c.notes then c else record c { notes = c.notes ++ text ∷ [] }

-- `join(", ")`
unfoldable pub join_names : List Text → Text
join_names [] = []
join_names (n ∷ []) = n
join_names (n ∷ m ∷ ns) = n ++ (codes ", " ++ join_names (m ∷ ns))

unfoldable pub withdraw_actuating : Capabilities → Text → Capabilities
unfolding has
withdraw_actuating c why =
    let removed = keep (has c) actuating in
    let rest = record c { granted = keep (λ d. not (contains actuating d)) c.granted } in
    if is_empty removed
    then note rest why
    else note rest (why ++ (codes "; withdrew " ++ join_names (map Name.as_str removed)))

unfoldable pub delivery_mode : Capabilities → DeliveryMode
delivery_mode c =
    if has c external_turn_start
    then if has c structured_pull then activate_and_pull else activate_with_payload
    else if has c structured_pull
    then pull_only
    else queued
