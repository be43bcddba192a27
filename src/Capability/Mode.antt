-- ===== src/Capability/Mode.antt =====
-- agent-mesh-core/src/capability.rs: `DeliveryMode`.
use vvagent.Base.{Bool, true, false, Text, codes}

pub data DeliveryMode : Type 0 where
  activate_and_pull activate_with_payload pull_only queued : DeliveryMode

unfoldable pub as_str : DeliveryMode → Text
as_str activate_and_pull = codes "activate_and_pull"
as_str activate_with_payload = codes "activate_with_payload"
as_str pull_only = codes "pull_only"
as_str queued = codes "queued"

-- Whether this mode can start a turn on its own.
abbrev pub activates : DeliveryMode → Bool
activates activate_and_pull = true
activates activate_with_payload = true
activates pull_only = false
activates queued = false

-- The match arm that carries no payload.
abbrev pub is_pull : DeliveryMode → Bool
is_pull activate_and_pull = true
is_pull _ = false
