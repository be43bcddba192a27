-- ===== src/Store/Examples/Waking.antt =====
-- Two requests wait for an agent that may be woken, and it was just woken for the first.
use vvagent.Base.{◌≡◌, ◌≢◌, refl, [], ◌∷◌, none, some, arith, codes, here, false, text_eq}
use vvagent.Capability.Name.{capability_eq, structured_pull, external_turn_start}
use vvagent.Capability.Mode.{activate_and_pull}
use vvagent.Capability.Defs.{Capabilities}
use vvagent.Error.{ok}
use vvagent.Policy.Defs.{Rule}
use vvagent.Store.Tables.{Store, EndpointRow, Message}
use vvagent.Store.Activation.{Activatable, activatable, record_activation}
use vvagent.Capability.Defs.{delivery_mode, has}
use vvagent.Identity.Opaque.{opaque_eq}
use vvagent.Identity.RuntimeKind.{kind_eq}
use vvagent.Message.PrincipalKind.{is_peer, is_local_user}
use vvagent.Policy.Defs.{teammates, default, evaluate, evaluate_admit, evaluate_local, by_admit}
use vvagent.Store.Tables.{find_endpoint, load_message}
use vvagent.Store.Queries.{message_decision, answers_own_request, peer_trusted}
use vvagent.Store.Receive.{by_sequence, insert_by_sequence}
use vvagent.Store.Directory.{capabilities, endpoint, policy}
use vvagent.Store.Activation.{wake, wake_each, activate_decision}
use vvagent.Store.Waking.{record_activation-rests}
use vvagent.Store.Examples.{id, empty, worker_row, waiting}

abbrev both_ways : Capabilities
both_ways = record {
  provider = none;
  version = none;
  native_session = none;
  granted = structured_pull ∷ external_turn_start ∷ [];
  notes = [];
}

abbrev able_worker : EndpointRow
able_worker = record worker_row { capabilities = some both_ways }

abbrev next_request : Message
next_request = record waiting { message_id = id 5; recipient_sequence = 2 }

abbrev queue : Store
queue = record empty { endpoints = able_worker ∷ []; messages = waiting ∷ next_request ∷ [] }

abbrev woken : Store
woken = record_activation queue 10 (id 7) (id 1) activate_and_pull Rule.anyone (codes "started")

abbrev to_wake : Activatable
to_wake = record {
  message = next_request;
  endpoint_id = id 1;
  capabilities = both_ways;
  mode = activate_and_pull;
  decision = record { allowed = false; rule = Rule.not_admitted };
}

next-listed : activatable woken (id 3) 12 5 3 ≡ ok (to_wake ∷ [])
unfolding activatable wake_each wake record_activation by_sequence insert_by_sequence
    activate_decision capabilities endpoint policy message_decision answers_own_request peer_trusted
    find_endpoint opaque_eq text_eq delivery_mode has capability_eq teammates evaluate
    evaluate_admit evaluate_local by_admit is_local_user is_peer default load_message kind_eq
next-listed = refl

record_activation-rests_example : next_request.message_id ≢ id 7
record_activation-rests_example =
    record_activation-rests queue 10 (id 7) (id 1) activate_and_pull Rule.anyone (codes "started")
      (id 3) 12 5 3 (to_wake ∷ []) to_wake (ground arith) next-listed here
