-- ===== src/Store/Examples/Redelivery.antt =====
-- A notice of a peer is delivered twice.
use vvagent.Base.{ℕ, ◌≡◌, refl, [], ◌∷◌, none, some, codes, In-nil, true, text_eq, len, bytes, utf8}
use vvagent.Bridge.Frame.{Deliver, validate_deliver}
use vvagent.Error.{ok}
use vvagent.Identity.Opaque.{Opaque, opaque_eq}
use vvagent.Message.Kind.{request}
use vvagent.Message.PrincipalKind
use vvagent.Message.State.{queued}
use vvagent.Store.Tables.{Store, Message}
use vvagent.Store.Queries.{require_live_lease}
use vvagent.Identity.RuntimeKind.{kind_eq}
use vvagent.Identity.Opaque
use vvagent.Message.PrincipalKind.{is_peer, is_local_user}
use vvagent.Message.Draft
use vvagent.Message.Draft.{charged_bytes, validate_refs, validate_kind}
use vvagent.Policy.Defs.{default, evaluate, evaluate_admit, evaluate_local, evaluate_peer, by_admit}
use vvagent.Store.Tables.{find_endpoint, find_proxy, find_peer}
use vvagent.Store.Queries.{require_peer_authority, agent_identity, peer_trusted, principal_key}
use vvagent.Store.Send.{send_as, deliver, admit, insert, inserted}
use vvagent.Store.Admission.{
  prior_send, routable, is_reply, enqueue_decision, over_rate, over_quota,
}
use vvagent.Store.Peers.Proxies.{new_proxy, proxy, proxy_caller}
use vvagent.Store.Peers.Inbound.{commit, enqueue, peer_inbound_budget_left}
use vvagent.Store.Peers.Inbound.{ingest}
use vvagent.Store.Peers.Proxies.{ensure_proxy}
use vvagent.Store.Peers.Redelivery.{ProxyKeyed, ingest-ingest}
use vvagent.Store.Examples.{id, empty, absolute, json, checksum}
use vvagent.Store.Examples.Hosts.{leased_row}

abbrev connected : Store
connected = record empty { peers = record leased_row { trusted = true } ∷ [] }

abbrev delivery : Deliver
delivery = record {
  origin_message_id = id 71;
  origin_endpoint_id = id 52;
  to_endpoint_id = id 1;
  kind = request;
  reply_to_origin = none;
  outcome = none;
  subject = none;
  text = codes "hi";
  refs = [];
  remaining_lifetime_ms = none;
}

abbrev delivered_request : Message
delivered_request = record {
  message_id = id 7;
  to_endpoint = id 1;
  from_principal = record {
    kind = PrincipalKind.peer;
    endpoint_id = some (id 72);
    incarnation_id = some (id 2);
  };
  kind = request;
  conversation_id = id 8;
  reply_to = none;
  outcome = none;
  recipient_sequence = 1;
  state = queued;
  subject = none;
  text = codes "hi";
  refs = [];
  created_at = 5;
  expires_at = none;
  failure = none;
  origin_message_id = some (id 71);
  bytes = 2;
  claim_owner = none;
  claim_expires_at = none;
  activations = 0;
  last_activated_at = none;
  group_send_id = none;
}

abbrev delivered_once : Store
delivered_once =
    (ingest absolute json checksum (λ i. 5) (id 7) (id 8) (id 51) delivery (id 2) (id 72)
      connected).1

delivered :
    (ingest absolute json checksum
      (λ i. 5)
      (id 7)
      (id 8)
      (id 51)
      delivery
      (id 2)
      (id 72)
      connected).0
    ≡ ok delivered_request
unfolding ingest validate_deliver require_live_lease ensure_proxy new_proxy proxy_caller proxy
    find_proxy commit enqueue peer_inbound_budget_left agent_identity send_as Draft.validate
    require_peer_authority deliver admit insert inserted len bytes utf8 is_peer prior_send
    find_endpoint opaque_eq text_eq routable kind_eq is_reply enqueue_decision evaluate
    evaluate_admit evaluate_local evaluate_peer by_admit is_local_user default over_rate over_quota
    charged_bytes validate_refs validate_kind peer_trusted principal_key find_peer codes
    Opaque.as_str
delivered = refl

still-live : (i : ℕ) → require_live_lease delivered_once 6 (id 51) (id 2) ≡ ok tt
unfolding ingest validate_deliver require_live_lease ensure_proxy new_proxy proxy_caller proxy
    find_proxy commit enqueue peer_inbound_budget_left agent_identity send_as Draft.validate
    require_peer_authority deliver admit insert inserted len bytes utf8 is_peer prior_send
    find_endpoint opaque_eq text_eq routable kind_eq is_reply enqueue_decision evaluate
    evaluate_admit evaluate_local evaluate_peer by_admit is_local_user default over_rate over_quota
    charged_bytes validate_refs validate_kind peer_trusted principal_key find_peer codes
    Opaque.as_str
still-live i = refl

connected-Keyed : ProxyKeyed connected
connected-Keyed x y i j q = absurd (In-nil i)

ingest-ingest_example :
    ingest absolute json checksum
      (λ i. 6)
      (id 17)
      (id 18)
      (id 51)
      delivery
      (id 2)
      (id 82)
      delivered_once
    ≡ (ok delivered_request, delivered_once)
ingest-ingest_example =
    ingest-ingest absolute json checksum (id 51) delivery (id 2) (λ i. 5) (λ i. 6) (id 7) (id 8)
      (id 72) (id 17) (id 18) (id 82) connected delivered_request connected-Keyed refl delivered
      still-live
