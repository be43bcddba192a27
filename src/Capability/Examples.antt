-- ===== src/Capability/Examples.antt =====
-- A provider with every capability and one with the mailbox tools only.
use vvagent.Base.{◌≡◌, ◌↔◌, true, [], ◌∷◌, none, In}
use vvagent.Capability.Name.{structured_pull, external_turn_start, external_interrupt}
use vvagent.Capability.Mode.{activate_and_pull, activates}
use vvagent.Capability.Defs.{Capabilities, delivery_mode}
use vvagent.Capability.Laws.{delivery_mode_iff}

abbrev full : Capabilities
full = record {
  provider = none;
  version = none;
  native_session = none;
  granted = structured_pull ∷ external_turn_start ∷ external_interrupt ∷ [];
  notes = [];
}

delivery_mode_iff_example :
    ((activates (delivery_mode full) ≡ true) ↔ In external_turn_start full.granted)
    × ((delivery_mode full ≡ activate_and_pull)
        ↔ (In external_turn_start full.granted × In structured_pull full.granted))
delivery_mode_iff_example = delivery_mode_iff full
