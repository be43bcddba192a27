-- ===== src/Message/Principal.antt =====
-- agent-mesh-core/src/lib.rs: `Principal`, who sent a message.
use vvagent.Base.{Option}
use vvagent.Identity.Opaque.{Opaque}
use vvagent.Message.PrincipalKind.{PrincipalKind}

pub record Principal : Type 0 where
  pub kind : PrincipalKind
  pub endpoint_id : Option Opaque
  pub incarnation_id : Option Opaque
