-- ===== src/Store/Peers/Emptied.antt =====
-- After a peer is retired nothing waits on it.
use vvagent.Base.{
  ℕ, ◌≡◌, refl, sym, ap, subst, ◌∙◌, ◌⊎◌, inl, inr, Bool, true, false, List, [], ◌∷◌, some, arith,
  if◌then◌else◌, find, keep, option_eq, In, In-cons, In-keep_of, Bool-cases,
}
use vvagent.Error.{Result}
use vvagent.Identity.Opaque.{Opaque, opaque_eq, opaque_eq_refl}
use vvagent.Identity.PeerLabel.{PeerLabel}
use vvagent.Message.State.{undeliverable, is_pending}
use vvagent.Store.Tables.{Store, Message, PeerRow, ProxyRow, is_message}
use vvagent.Store.Rows.{update, In-update}
use vvagent.Store.Queries.{recount, occupies}
use vvagent.Store.Receive.{is_queued}
use vvagent.Store.Branches.{Sat}
use vvagent.Store.Peers.Pins.{labelled}
use vvagent.Store.Peers.Retire.{
  RetiredPeer, retire_peer, retire_each, retire_proxy, withdraw_each, lose_each, give_up, lose,
  unclaimed_from, proxies_of,
}

-- A message that was given up, or one from before that has none of these ids.
abbrev Left : List Message → List Message → Message → Type 0
Left ms before m =
    (m.state ≡ undeliverable)
    ⊎ (In m before × ((w : Message) → In w ms → is_message w.message_id m ≡ false))

mark-Left :
    (f : Message → Message) (w : Message) (ms before : List Message) (m : Message)
    → ((x : Message) → (f x).state ≡ undeliverable)
    → Left ms (update (is_message w.message_id) f before) m
    → Left (w ∷ ms) before m
mark-Left f w ms before m gone (inl e) = inl e
mark-Left f w ms before m gone (inr (i, others)) =
    let (x, j, q) = In-update (is_message w.message_id) f m before i in
    elim (Bool-cases (is_message w.message_id x)) [
      | inl hit ↦
          inl (
            ap (λ (n : Message). n.state) (q ∙ ap (λ (b : Bool). if b then f x else x) hit)
            ∙ gone x)
      | inr miss ↦
          let same : m ≡ x = q ∙ ap (λ (b : Bool). if b then f x else x) miss in
          inr (
            subst (λ (n : Message). In n before) (sym same) j,
            λ v k. elim (In-cons k) [
              | inl e ↦
                  ap (λ (n : Message). is_message n.message_id m) e
                  ∙ ap (is_message w.message_id) same
                  ∙ miss
              | inr k' ↦ others v k'
            ],
          )
    ]

withdraw_each-Left :
    (now : ℕ) (ms : List Message) (s : Store) (m : Message)
    → In m (withdraw_each now ms s).messages
    → Left ms s.messages m
unfolding withdraw_each recount
withdraw_each-Left now [] s m i = inr (i, λ w k. elim k [ ])
withdraw_each-Left now (w ∷ ms) s m i =
    mark-Left give_up w ms s.messages m (λ x. refl) (withdraw_each-Left now ms _ m i)

lose_each-Left :
    (now : ℕ) (id : Opaque) (ms : List Message) (s : Store) (m : Message)
    → In m (lose_each now id ms s).messages
    → Left ms s.messages m
unfolding lose_each
lose_each-Left now id [] s m i = inr (i, λ w k. elim k [ ])
lose_each-Left now id (w ∷ ms) s m i =
    mark-Left lose w ms s.messages m (λ x. refl) (lose_each-Left now id ms _ m i)

-- What waits on an endpoint: mail to it, and mail from it that is not claimed.
abbrev waits_on : Opaque → Message → Bool
waits_on id m = if occupies id m then true else unclaimed_from id m

abbrev Quiet : Opaque → Store → Type 0
Quiet id s = (m : Message) → In m s.messages → waits_on id m ≡ false

-- A message that is given up waits on no one.
gone-waits_on : (id : Opaque) (m : Message) → m.state ≡ undeliverable → waits_on id m ≡ false
gone-waits_on id m e = ground arith

-- After a list of messages that pass a test is given up, no message passes it.
Left-none :
    (p : Message → Bool) (before : List Message) (m : Message)
    → (m.state ≡ undeliverable → p m ≡ false)
    → Left (keep p before) before m
    → p m ≡ false
Left-none p before m gone (inl e) = gone e
Left-none p before m gone (inr (i, others)) = elim (Bool-cases (p m)) [
  | inr none' ↦ none'
  | inl one ↦ cc (others m (In-keep_of p m before i one), opaque_eq_refl m.message_id)
]

retire_proxy-Left :
    (now : ℕ) (id : Opaque) (s : Store) (m : Message)
    → In m (retire_proxy now id s).1.messages
    → (m.state ≡ undeliverable) ⊎ In m s.messages
unfolding retire_proxy recount
retire_proxy-Left now id s m i =
    let withdrawn = withdraw_each now (keep (unclaimed_from id) s.messages) s in
    elim (lose_each-Left now id (keep (occupies id) withdrawn.messages) withdrawn m i) [
      | inl e ↦ inl e
      | inr (j, others) ↦
          elim (withdraw_each-Left now (keep (unclaimed_from id) s.messages) s m j) [
            | inl e ↦ inl e
            | inr (k, others') ↦ inr k
          ]
    ]

retire_proxy-Quiet : (now : ℕ) (id : Opaque) (s : Store) → Quiet id (retire_proxy now id s).1
unfolding retire_proxy recount
retire_proxy-Quiet now id s m i =
    let withdrawn = withdraw_each now (keep (unclaimed_from id) s.messages) s in
    let left = lose_each-Left now id (keep (occupies id) withdrawn.messages) withdrawn m i in
    let empty : occupies id m ≡ false =
      Left-none (occupies id) withdrawn.messages m (λ e. ground arith) left in
    elim left [
      | inl e ↦ gone-waits_on id m e
      | inr (j, others) ↦
          let free : unclaimed_from id m ≡ false =
            Left-none (unclaimed_from id) s.messages m (λ e. ground arith)
              (withdraw_each-Left now (keep (unclaimed_from id) s.messages) s m j) in
          rw empty free
    ]

retire_each-Left :
    (now : ℕ) (xs : List ProxyRow) (s : Store) (m : Message)
    → In m (retire_each now xs s).1.messages
    → (m.state ≡ undeliverable) ⊎ In m s.messages
unfolding retire_each
retire_each-Left now [] s m i = inr i
retire_each-Left now (x ∷ xs) s m i =
    elim (retire_each-Left now xs (retire_proxy now x.endpoint_id s).1 m i) [
      | inl e ↦ inl e
      | inr j ↦ retire_proxy-Left now x.endpoint_id s m j
    ]

retire_each-Quiet :
    (now : ℕ) (xs : List ProxyRow) (s : Store) (x : ProxyRow)
    → In x xs
    → Quiet x.endpoint_id (retire_each now xs s).1
unfolding retire_each
retire_each-Quiet now [] s x k m i = elim k [ ]
retire_each-Quiet now (y ∷ xs) s x k m i = elim (In-cons k) [
  | inr k' ↦ retire_each-Quiet now xs (retire_proxy now y.endpoint_id s).1 x k' m i
  | inl e ↦ elim (retire_each-Left now xs (retire_proxy now y.endpoint_id s).1 m i) [
    | inl gone ↦ gone-waits_on x.endpoint_id m gone
    | inr j ↦
        subst (λ (z : ProxyRow). waits_on z.endpoint_id m ≡ false) (sym e)
          (retire_proxy-Quiet now y.endpoint_id s m j)
  ]
]

retire-Sat :
    (s : Store) (now : ℕ) (l : PeerLabel) (p : PeerRow)
    → find (labelled l) s.peers ≡ some p
    → Sat {B = Result RetiredPeer}
        (λ y. (x : ProxyRow) → In x (proxies_of p.peer_id s) → Quiet x.endpoint_id y.1)
        (retire_peer s now l)
unfolding retire_peer
retire-Sat s now l p found =
    rw (found, retire_peer)
      (record { holds = λ x k. retire_each-Quiet now (proxies_of p.peer_id s) s x k })

-- Once a peer is retired, no message to a proxy of it is pending any more, and none from a proxy of
-- it waits to be claimed.
pub retire_peer-settles :
    (s : Store) (now : ℕ) (l : PeerLabel) (p : PeerRow) (x : ProxyRow) (m : Message)
    → find (labelled l) s.peers ≡ some p
    → In x (proxies_of p.peer_id s)
    → In m (retire_peer s now l).1.messages
    → (m.to_endpoint ≡ x.endpoint_id → is_pending m.state ≡ false)
      × (m.from_principal.endpoint_id ≡ some x.endpoint_id → is_queued m.state ≡ false)
retire_peer-settles s now l p x m found k i =
    let quiet = (retire-Sat s now l p found).holds x k m i in
    (λ to. ground (arith, opaque_eq_refl x.endpoint_id), λ from. ground (arith, from_test from))
  where
    from_test :
        m.from_principal.endpoint_id ≡ some x.endpoint_id
        → option_eq opaque_eq m.from_principal.endpoint_id (some x.endpoint_id) ≡ true
    from_test from = rw from (opaque_eq_refl x.endpoint_id)
