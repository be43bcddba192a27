-- ===== src/Store/Peers/Inbound.antt =====
-- `ingest`, which commits what a peer delivered, and `message_by_origin`. The readings of the clock
-- that one call makes are the values of an argument.
use vvagent.Base.{
  ℕ, ◌+◌, Bool, true, false, not, ◌&&◌, List, Option, none, some, Text, codes, if◌then◌else◌, find,
  any, is_some_and, option_eq, ltb, length, keep, map,
}
use vvagent.Bridge.Frame.{Deliver, WireRef, sender, recipient, validate_deliver}
use vvagent.Error.{Result, ok, err, ◌>>◌, new, rate_limited, store_corrupt}
use vvagent.Identity.Opaque
use vvagent.Identity.Opaque.{Opaque, opaque_eq}
use vvagent.Message.Kind.{Kind, response}
use vvagent.Message.Ref.{Ref, file, pane, media}
use vvagent.Message.Draft.{Draft}
use vvagent.Store.Tables.{Store, Message, Caller, load_message}
use vvagent.Store.Queries.{principal_key, require_live_lease}
use vvagent.Store.Admission.{prior_send}
use vvagent.Store.Send.{send_as}
use vvagent.Store.Respond.{respond}
use vvagent.Store.Peers.Proxies.{ensure_proxy, proxy_caller}

abbrev pub peer_max_inbound_per_minute : ℕ
peer_max_inbound_per_minute = 60

-- A reference as this store holds it: `sender` means the peer's filesystem.
unfoldable pub localize_ref : Opaque → WireRef → Ref
localize_ref peer_id w = elim w.on [
  | recipient ↦ w.reference
  | sender ↦ elim w.reference [
    | file path sha256 size host ↦ file path sha256 size (some peer_id)
    | pane instance p ↦ pane instance p
    | media instance id binding ↦ media instance id binding
  ]
]

abbrev pub is_response : Kind → Bool
is_response response = true
is_response _ = false

-- Mail from this peer, of either kind that is not a response, in the last minute.
abbrev pub inbound_since : Store → Opaque → ℕ → Message → Bool
inbound_since s peer_id now m =
    is_some_and m.from_principal.endpoint_id
      (λ id. any (λ x. opaque_eq x.peer_id peer_id && opaque_eq x.endpoint_id id) s.proxies)
    && not (is_response m.kind)
    && ltb now (m.created_at + 60000)

unfoldable pub peer_inbound_budget_left : Store → Opaque → ℕ → Bool
peer_inbound_budget_left s peer_id now =
    ltb (length (keep (inbound_since s peer_id now) s.messages)) peer_max_inbound_per_minute

abbrev pub inbound_draft : Opaque → Deliver → Draft
inbound_draft peer_id d = record {
  to = d.to_endpoint_id;
  kind = d.kind;
  reply_to = none;
  outcome = none;
  subject = d.subject;
  text = d.text;
  refs = map (localize_ref peer_id) d.refs;
  idempotency_key = Opaque.as_str d.origin_message_id;
  expires_in_ms = d.remaining_lifetime_ms;
}

-- Mail this peer sent, by the peer's own id for it.
abbrev pub from_peer_as : Store → Opaque → Opaque → Message → Bool
from_peer_as s peer_id origin m =
    is_some_and m.from_principal.endpoint_id
      (λ id. any (λ x. opaque_eq x.peer_id peer_id && opaque_eq x.endpoint_id id) s.proxies)
    && option_eq opaque_eq m.origin_message_id (some origin)

unfoldable pub message_by_origin : Store → Opaque → Opaque → Option Message
message_by_origin s peer_id origin = find (from_peer_as s peer_id origin) s.messages

module _ (is_absolute : Text → Bool) (refs_json : List Ref → Option Text) (sha256 : List ℕ → List ℕ)
    (clock : ℕ → ℕ) (fresh_id fresh_conversation : Opaque) (peer_id : Opaque) (d : Deliver) where
  -- The two `expect`s: a response that was validated names its request and has an outcome.
  unfoldable pub answer : Caller → Store → Result Message × Store
  answer c s = elim d.reply_to_origin [
    | none ↦ (err (new store_corrupt (codes "a validated response names its request")), s)
    | some asked ↦ elim d.outcome [
      | none ↦ (err (new store_corrupt (codes "a validated response carries an outcome")), s)
      | some outcome ↦
          respond is_absolute refs_json sha256 s (clock 4) (clock 5) fresh_id fresh_conversation c
            asked outcome d.text (map (localize_ref peer_id) d.refs)
            (Opaque.as_str d.origin_message_id)
    ]
  ]

  unfoldable pub enqueue : Bool → Caller → Store → Result Message × Store
  enqueue first_time c s =
      if first_time && not (peer_inbound_budget_left s peer_id (clock 3))
      then (
        err (
            new rate_limited
              (codes "this host accepts 60 messages a minute from one peer and has had them")),
        s,
      )
      else send_as is_absolute refs_json sha256 (clock 4) fresh_id fresh_conversation c
          (inbound_draft peer_id d) (some d.origin_message_id) s

  -- What `ingest` does as the proxy of the sender.
  unfoldable pub commit : Caller → Store → Result Message × Store
  unfolding answer enqueue
  commit c s = elim (prior_send s (principal_key c.principal) (Opaque.as_str d.origin_message_id)) [
    | some row ↦
        if is_response d.kind then (load_message s row.message_id, s) else enqueue false c s
    | none ↦ if is_response d.kind then answer c s else enqueue true c s
  ]

  unfoldable pub ingest : Opaque → Opaque → Store → Result Message × Store
  unfolding commit
  ingest owner fresh_proxy s =
      elim (validate_deliver is_absolute d >> require_live_lease s (clock 0) peer_id owner) [
        | err e ↦ (err e, s)
        | ok u ↦
            let placed = ensure_proxy s (clock 1) peer_id d.origin_endpoint_id none fresh_proxy in
            elim placed.0 [
              | err e ↦ (err e, placed.1)
              | ok id ↦ elim (proxy_caller placed.1 (clock 2) id owner) [
                | err e ↦ (err e, placed.1)
                | ok c ↦ commit c placed.1
              ]
            ]
      ]
