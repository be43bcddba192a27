-- ===== src/Store/Peers/Redelivery.antt =====
-- A redelivery commits nothing new.
use vvagent.Base.{
  is_some-none, ℕ, ◌≡◌, refl, sym, ap, subst, ◌∙◌, inl, inr, Bool, true, false, not, ◌&&◌, ◌||◌,
  List, [], ◌∷◌, ◌++◌, Option, none, some, arith, Text, find, is_some, leb, length, In,
  Option-cases, find-In, and-eq-true,
}
use vvagent.Bridge.Frame.{Deliver, validate_deliver}
use vvagent.Error.{Result, ok, err, ◌>>◌, >>-eq-ok}
use vvagent.Identity.Opaque
use vvagent.Identity.Opaque.{Opaque, opaque_eq, opaque_eq→≡, opaque_eq_refl}
use vvagent.Message.PrincipalKind
use vvagent.Message.PrincipalKind.{is_peer}
use vvagent.Message.Ref.{Ref}
use vvagent.Message.Draft.{Draft}
use vvagent.Store.Tables.{Store, Message, Caller, ProxyRow, PeerRow, find_proxy, find_endpoint}
use vvagent.Store.Rows.{find-append, find-some}
use vvagent.Store.Queries.{
  require_live_lease, require_peer_authority, agent_identity, principal_key,
}
use vvagent.Store.Admission.{prior_send}
use vvagent.Store.Send.{send_as, inserted}
use vvagent.Store.Branches.{Sat, on_if, on_option, on_result}
use vvagent.Store.Outcomes.{send_as-Sends}
use vvagent.Store.Replay.{send_as-repeated, sent_row}
use vvagent.Store.Binding.{max_endpoints}
use vvagent.Store.Peers.Pins.{known_as}
use vvagent.Store.Peers.Proxies.{ensure_proxy, show, stands_for, proxy, proxy_caller}
use vvagent.Store.Peers.Inbound.{
  ingest, commit, enqueue, inbound_draft, is_response, peer_inbound_budget_left,
}

-- The primary key of `proxy`.
abbrev pub ProxyKeyed : Store → Type 0
ProxyKeyed s =
    (x y : ProxyRow) → In x s.proxies → In y s.proxies → x.endpoint_id ≡ y.endpoint_id → x ≡ y

abbrev peer_caller : ProxyRow → Opaque → Caller
peer_caller x owner = record {
  principal = record {
    kind = PrincipalKind.peer;
    endpoint_id = some x.endpoint_id;
    incarnation_id = some owner;
  };
  scope = some x.peer_id;
}

-- The proxy of this remote agent stands in the store, and its id finds it.
record Stands (peer remote id : Opaque) (s : Store) : Type 0 where
  row : ProxyRow
  found : find (stands_for peer remote) s.proxies ≡ some row
  by_id : find_proxy s id ≡ some row
  peer_is : row.peer_id ≡ peer
  id_is : row.endpoint_id ≡ id

find_proxy_of :
    (s : Store) (x : ProxyRow) → ProxyKeyed s → In x s.proxies → find_proxy s x.endpoint_id ≡ some x
unfolding find_proxy
find_proxy_of s x keyed i =
    let test : ProxyRow → Bool = λ y. opaque_eq y.endpoint_id x.endpoint_id in
    let (y, q) = find-some test x s.proxies i (opaque_eq_refl x.endpoint_id) in
    let (j, same) = find-In test s.proxies y q in
    q ∙ ap some (keyed y x j i (opaque_eq→≡ y.endpoint_id x.endpoint_id same))

ensure_proxy-Sat :
    (s : Store) (now : ℕ) (peer remote fresh : Opaque)
    → ProxyKeyed s
    → Sat {B = Result Opaque}
        (λ y. (id : Opaque) → y.0 ≡ ok id → Stands peer remote id y.1)
        (ensure_proxy s now peer remote none fresh)
unfolding ensure_proxy show find_proxy
ensure_proxy-Sat s now peer remote fresh keyed =
    on_option (find (known_as peer) s.peers) _ _ (λ k. record { holds = λ id r. cc })
      (λ p k.
        on_option (find (stands_for peer remote) s.proxies) _ _
          (λ j.
            on_if (leb max_endpoints (length s.endpoints)) (λ q. record { holds = λ id r. cc })
              (λ q.
                on_if (is_some (find_endpoint s fresh) || is_some (find_proxy s fresh))
                  (λ q'. record { holds = λ id r. cc })
                  (λ q'. record {
                    holds = λ id r.
                        let same : fresh ≡ id = cc in
                        let x : ProxyRow = record {
                          endpoint_id = fresh;
                          peer_id = peer;
                          remote_endpoint_id = remote;
                          display = none;
                        } in
                        record {
                          row = x;
                          found =
                              find-append (stands_for peer remote) s.proxies x j
                                (rw (opaque_eq_refl peer) (opaque_eq_refl remote));
                          by_id =
                              ap
                                (λ (a : Opaque).
                                  find (λ y. opaque_eq y.endpoint_id a) (s.proxies ++ x ∷ []))
                                (sym same)
                              ∙ find-append (λ y. opaque_eq y.endpoint_id fresh) s.proxies x
                                  (is_some-none (find_proxy s fresh) (ground arith))
                                  (opaque_eq_refl fresh);
                          peer_is = refl;
                          id_is = same;
                        };
                  })))
          (λ x j. record {
            holds = λ id r.
                let same : x.endpoint_id ≡ id = cc in
                let (i, test) = find-In (stands_for peer remote) s.proxies x j in
                record {
                  row = x;
                  found = j;
                  by_id = ap (find_proxy s) (sym same) ∙ find_proxy_of s x keyed i;
                  peer_is =
                      opaque_eq→≡ x.peer_id peer
                        (and-eq-true (opaque_eq x.peer_id peer)
                          (opaque_eq x.remote_endpoint_id remote) test).0;
                  id_is = same;
                };
          }))

live-known :
    (s : Store) (now : ℕ) (peer owner : Opaque)
    → require_live_lease s now peer owner ≡ ok tt
    → (p : PeerRow) × (find (known_as peer) s.peers ≡ some p)
unfolding require_live_lease
live-known s now peer owner h = elim (Option-cases (find (known_as peer) s.peers)) [
  | inl k ↦ cc (rw (k, require_live_lease) at h)
  | inr (p, k) ↦ (p, k)
]

proxy_caller-peer :
    (s : Store) (now : ℕ) (id owner : Opaque) (x : ProxyRow) (c : Caller)
    → find_proxy s id ≡ some x
    → proxy_caller s now id owner ≡ ok c
    → c ≡ peer_caller x owner
unfolding proxy_caller proxy
proxy_caller-peer s now id owner x c k h =
    let after : (require_live_lease s now x.peer_id owner >> ok (peer_caller x owner)) ≡ ok c =
      rw k at h in
    let (live, same) =
      (>>-eq-ok (require_live_lease s now x.peer_id owner) (ok (peer_caller x owner)) c).0 after in
    cc

module _ (is_absolute : Text → Bool) (refs_json : List Ref → Option Text) (sha256 : List ℕ → List ℕ)
    (peer : Opaque) (d : Deliver) (owner : Opaque) where
  send_as-proxies :
      (now : ℕ) (a b : Opaque) (c : Caller) (e : Draft) (origin : Option Opaque) (s : Store)
      (m : Message)
      → (send_as is_absolute refs_json sha256 now a b c e origin s).0 ≡ ok m
      → (send_as is_absolute refs_json sha256 now a b c e origin s).1.proxies ≡ s.proxies
  unfolding inserted
  send_as-proxies now a b c e origin s m h =
      elim (send_as-Sends is_absolute refs_json sha256 now a b c e origin s) [
        | inl (f, q, same) ↦ cc
        | inr (inl (row, n, known, same, loaded, q)) ↦
            ap (λ (x : Result Message × Store). x.1.proxies) q
        | inr (inr (target, reply, u, f, w, r, l, g, q)) ↦
            ap (λ (x : Result Message × Store). x.1.proxies) q
      ]

  -- What a successful delivery leaves: the sender's proxy, and the mail as that proxy sent it.
  record Delivered (m : Message) (t : Store) : Type 0 where
    row : ProxyRow
    found : find (stands_for peer d.origin_endpoint_id) t.proxies ≡ some row
    by_id : find_proxy t row.endpoint_id ≡ some row
    peer_is : row.peer_id ≡ peer
    valid : validate_deliver is_absolute d ≡ ok tt
    before : Store
    now : ℕ
    a : Opaque
    b : Opaque
    sent :
        send_as is_absolute refs_json sha256 now a b
          (peer_caller row owner)
          (inbound_draft peer d)
          (some d.origin_message_id)
          before
        ≡ (ok m, t)

  abbrev Delivers : Result Message × Store → Type 0
  Delivers y = (m : Message) → y.0 ≡ ok m → Delivered m y.1

  enqueue-Sat :
      (clock : ℕ → ℕ) (a b : Opaque) (first : Bool) (c : Caller) (id : Opaque) (s : Store)
      → validate_deliver is_absolute d ≡ ok tt
      → (x : Stands peer d.origin_endpoint_id id s) → c ≡ peer_caller x.row owner
      → Sat Delivers (enqueue is_absolute refs_json sha256 clock a b peer d first c s)
  unfolding enqueue find_proxy
  enqueue-Sat clock a b first c id s valid x same =
      on_if (first && not (peer_inbound_budget_left s peer (clock 3)))
        (λ q. record { holds = λ m r. cc })
        (λ q. record {
          holds = λ m r.
              let out =
                send_as is_absolute refs_json sha256 (clock 4) a b c (inbound_draft peer d)
                  (some d.origin_message_id) s in
              let kept : out.1.proxies ≡ s.proxies =
                send_as-proxies (clock 4) a b c (inbound_draft peer d) (some d.origin_message_id) s
                  m r in
              record {
                row = x.row;
                found = ap (find (stands_for peer d.origin_endpoint_id)) kept ∙ x.found;
                by_id =
                    ap (find (λ (y : ProxyRow). opaque_eq y.endpoint_id x.row.endpoint_id)) kept
                    ∙ (ap (find_proxy s) x.id_is ∙ x.by_id);
                peer_is = x.peer_is;
                valid = valid;
                before = s;
                now = clock 4;
                a = a;
                b = b;
                sent =
                    subst
                      (λ (k : Caller).
                        send_as is_absolute refs_json sha256 (clock 4) a b k (inbound_draft peer d)
                          (some d.origin_message_id) s
                        ≡ (ok m, out.1))
                      same (ap (λ (v : Result Message). (v, out.1)) r);
              };
        })

  commit-Sat :
      (clock : ℕ → ℕ) (a b : Opaque) (c : Caller) (id : Opaque) (s : Store)
      → is_response d.kind ≡ false
      → validate_deliver is_absolute d ≡ ok tt
      → (x : Stands peer d.origin_endpoint_id id s) → c ≡ peer_caller x.row owner
      → Sat Delivers (commit is_absolute refs_json sha256 clock a b peer d c s)
  unfolding commit
  commit-Sat clock a b c id s asks valid x same =
      on_option (prior_send s (principal_key c.principal) (Opaque.as_str d.origin_message_id)) _ _
        (λ k. rw asks (enqueue-Sat clock a b true c id s valid x same))
        (λ row k. rw asks (enqueue-Sat clock a b false c id s valid x same))

  ingest-Sat :
      (clock : ℕ → ℕ) (a b fresh : Opaque) (s : Store)
      → is_response d.kind ≡ false
      → ProxyKeyed s
      → Sat Delivers (ingest is_absolute refs_json sha256 clock a b peer d owner fresh s)
  unfolding ingest
  ingest-Sat clock a b fresh s asks keyed =
      let placed = ensure_proxy s (clock 1) peer d.origin_endpoint_id none fresh in
      on_result (validate_deliver is_absolute d >> require_live_lease s (clock 0) peer owner) s _ _
        (λ e m r. cc)
        (λ u q.
          on_result placed.0 placed.1 _ _ (λ e m r. cc)
            (λ id q'.
              let x =
                (ensure_proxy-Sat s (clock 1) peer d.origin_endpoint_id fresh keyed).holds id q' in
              on_result (proxy_caller placed.1 (clock 2) id owner) placed.1 _ _ (λ e m r. cc)
                (λ c q''.
                  commit-Sat clock a b c id placed.1 asks
                    ((>>-eq-ok (validate_deliver is_absolute d)
                        (require_live_lease s (clock 0) peer owner) u).0
                      q).0
                    x (proxy_caller-peer placed.1 (clock 2) id owner x.row c x.by_id q''))))

  ensure_proxy-known :
      (now : ℕ) (fresh : Opaque) (m : Message) (t : Store)
      → (x : Delivered m t) → require_live_lease t now peer owner ≡ ok tt
      → (at : ℕ)
      → ensure_proxy t at peer d.origin_endpoint_id none fresh ≡ (ok x.row.endpoint_id, t)
  unfolding ensure_proxy show
  ensure_proxy-known now fresh m t x live at =
      let (p, known) = live-known t now peer owner live in
      rw (known, ensure_proxy) (rw (x.found, ensure_proxy) refl)

  proxy_caller-known :
      (now : ℕ) (m : Message) (t : Store)
      → (x : Delivered m t) → require_live_lease t now peer owner ≡ ok tt
      → proxy_caller t now x.row.endpoint_id owner ≡ ok (peer_caller x.row owner)
  unfolding proxy_caller proxy
  proxy_caller-known now m t x live =
      rw (x.by_id, proxy_caller) (rw (x.peer_is, proxy_caller) (rw live refl))

  authority-known :
      (now : ℕ) (m : Message) (t : Store)
      → (x : Delivered m t) → require_live_lease t now peer owner ≡ ok tt
      → require_peer_authority t now (peer_caller x.row owner) ≡ ok tt
  unfolding require_peer_authority agent_identity is_peer
  authority-known now m t x live = rw (x.by_id, require_peer_authority) (rw x.peer_is live)

  commit-known :
      (clock : ℕ → ℕ) (a b : Opaque) (m : Message) (t : Store)
      → (x : Delivered m t) → is_response d.kind ≡ false
      → require_live_lease t (clock 4) peer owner ≡ ok tt
      → commit is_absolute refs_json sha256 clock a b peer d (peer_caller x.row owner) t ≡ (ok m, t)
  unfolding commit enqueue
  commit-known clock a b m t x asks live =
      let c = peer_caller x.row owner in
      let e = inbound_draft peer d in
      let (row, known, same, loaded) =
        sent_row is_absolute refs_json sha256 c e x.now x.a x.b (some d.origin_message_id) x.before
          t m x.sent in
      rw (known, commit)
        (rw (asks, commit)
          (send_as-repeated is_absolute refs_json sha256 c e x.now x.a x.b
            (some d.origin_message_id) x.before t m (clock 4) a b (some d.origin_message_id) x.sent
            (authority-known (clock 4) m t x live)))

  redelivered :
      (clock : ℕ → ℕ) (a b fresh : Opaque) (m : Message) (t : Store)
      → (x : Delivered m t) → is_response d.kind ≡ false
      → ((i : ℕ) → require_live_lease t (clock i) peer owner ≡ ok tt)
      → ingest is_absolute refs_json sha256 clock a b peer d owner fresh t ≡ (ok m, t)
  unfolding ingest
  redelivered clock a b fresh m t x asks live =
      let checked : (validate_deliver is_absolute d >> require_live_lease t (clock 0) peer owner)
          ≡ ok tt =
        (>>-eq-ok (validate_deliver is_absolute d) (require_live_lease t (clock 0) peer owner) tt).1
          (x.valid, live 0) in
      rw (checked, ingest)
        (subst
          (λ (placed : Result Opaque × Store).
            (elim placed.0 as (λ r. Result Message × Store) [
              | err e ↦ (err e, placed.1)
              | ok id ↦
                  elim (proxy_caller placed.1 (clock 2) id owner) as (λ r. Result Message × Store) [
                    | err e ↦ (err e, placed.1)
                    | ok c ↦ commit is_absolute refs_json sha256 clock a b peer d c placed.1
                  ]
            ])
            ≡ (ok m, t))
          (sym (ensure_proxy-known (clock 0) fresh m t x (live 0) (clock 1)))
          (rw (proxy_caller-known (clock 2) m t x (live 2))
            (commit-known clock a b m t x asks (live 4))))

  -- A request or a notice that a peer delivered and that was committed, delivered again while the
  -- bridge still holds the lease, is answered with the message of the first delivery and changes
  -- nothing, so neither the inbound budget nor the recipient's quota is charged again; proxy ids are
  -- unique.
  pub ingest-ingest :
      (clock clock' : ℕ → ℕ) (a b fresh a' b' fresh' : Opaque) (s : Store) (m : Message)
      → ProxyKeyed s
      → is_response d.kind ≡ false
      → (ingest is_absolute refs_json sha256 clock a b peer d owner fresh s).0 ≡ ok m
      → let t = (ingest is_absolute refs_json sha256 clock a b peer d owner fresh s).1 in
        ((i : ℕ) → require_live_lease t (clock' i) peer owner ≡ ok tt)
        → ingest is_absolute refs_json sha256 clock' a' b' peer d owner fresh' t ≡ (ok m, t)
  ingest-ingest clock clock' a b fresh a' b' fresh' s m keyed asks first live =
      let t = (ingest is_absolute refs_json sha256 clock a b peer d owner fresh s).1 in
      let x = (ingest-Sat clock a b fresh s asks keyed).holds m first in
      redelivered clock' a' b' fresh' m t x asks live
