-- ===== src/Store/Peers/Emptying.antt =====
-- Retiring a peer keeps the counters right and the message ids unique.
use vvagent.Base.{
  ℕ, ◌≡◌, refl, sym, ap, subst, ◌∙◌, inl, inr, Bool, List, [], ◌∷◌, if◌then◌else◌, find, keep, In,
  here, there, In-keep, Bool-cases, and-eq-true,
}
use vvagent.Identity.Opaque.{Opaque, opaque_eq, opaque_eq→≡}
use vvagent.Identity.PeerLabel.{PeerLabel}
use vvagent.Message.State.{is_pending}
use vvagent.Store.Tables.{Store, Message, ProxyRow, is_message, is_endpoint}
use vvagent.Store.Rows.{update, In-update}
use vvagent.Store.Queries.{recount, occupies}
use vvagent.Store.Branches.{After, on_option}
use vvagent.Store.Counting.{CountedBut, recount-Counted}
use vvagent.Store.Settling.{Unique, update-Unique, update-CountedBut, CountedBut-update}
use vvagent.Store.Lifecycle.{Sound, endpoints-Counted}
use vvagent.Store.Peers.Pins.{labelled}
use vvagent.Store.Peers.Retire.{
  retire_peer, retire_each, retire_proxy, withdraw_each, lose_each, give_up, lose, unclaimed_from,
  retire_endpoint, proxies_of,
}

-- Whoever has this id has this address.
abbrev Placed : Store → Opaque → Opaque → Type 0
Placed s id endpoint =
    (n : Message) → In n s.messages → n.message_id ≡ id → n.to_endpoint ≡ endpoint

update-Placed :
    (p : Message → Bool) (f : Message → Message) (s : Store) (id endpoint : Opaque)
    → ((m : Message) → ((f m).message_id ≡ m.message_id) × ((f m).to_endpoint ≡ m.to_endpoint))
    → Placed s id endpoint
    → Placed (record s { messages = update p f s.messages }) id endpoint
update-Placed p f s id endpoint keeps h n i e =
    let (x, j, q) = In-update p f n s.messages i in
    elim (Bool-cases (p x)) [
      | inl hit ↦
          let same : n ≡ f x = q ∙ ap (λ (b : Bool). if b then f x else x) hit in
          ap (λ (m : Message). m.to_endpoint) same
          ∙ (keeps x).1
          ∙ h x j (sym (keeps x).0 ∙ sym (ap (λ (m : Message). m.message_id) same) ∙ e)
      | inr miss ↦
          let same : n ≡ x = q ∙ ap (λ (b : Bool). if b then f x else x) miss in
          ap (λ (m : Message). m.to_endpoint) same
          ∙ h x j (sym (ap (λ (m : Message). m.message_id) same) ∙ e)
    ]

kept-Placed :
    (s : Store) (p : Message → Bool) (m : Message)
    → Unique s
    → In m (keep p s.messages)
    → Placed s m.message_id m.to_endpoint
kept-Placed s p m u i n j e =
    ap (λ (x : Message). x.to_endpoint) (u n m j (In-keep p m s.messages i).0 e)

withdraw_each-Sound :
    (now : ℕ) (ms : List Message) (s : Store)
    → ((m : Message) → In m ms → Placed s m.message_id m.to_endpoint)
    → Sound s
    → Sound (withdraw_each now ms s)
unfolding withdraw_each
withdraw_each-Sound now [] s h k = k
withdraw_each-Sound now (m ∷ ms) s h (u, c) =
    let mine = is_message m.message_id in
    let gone = record s { messages = update mine give_up s.messages } in
    withdraw_each-Sound now ms _
      (λ n i.
        unfold recount in
        update-Placed mine give_up s n.message_id n.to_endpoint (λ x. (refl, refl)) (h n (there i)))
      (
        unfold recount in update-Unique mine give_up s (λ x. refl) u,
        recount-Counted m.to_endpoint gone (
            update-CountedBut mine give_up s m.to_endpoint
              (λ x i e.
                let to = h m here x i (opaque_eq→≡ x.message_id m.message_id e) in (to, to, refl))
              c),
      )

-- The counters of the others stay right until the one is recounted.
lose_each-Sound :
    (now : ℕ) (id : Opaque) (ms : List Message) (s : Store)
    → ((m : Message) → In m ms → Placed s m.message_id id)
    → Unique s
    → CountedBut id s
    → Unique (lose_each now id ms s) × CountedBut id (lose_each now id ms s)
unfolding lose_each
lose_each-Sound now id [] s h u c = (u, c)
lose_each-Sound now id (m ∷ ms) s h u c =
    let mine = is_message m.message_id in
    let gone = record s { messages = update mine lose s.messages } in
    lose_each-Sound now id ms _
      (λ n i. update-Placed mine lose s n.message_id id (λ x. (refl, refl)) (h n (there i)))
      (update-Unique mine lose s (λ x. refl) u)
      (CountedBut-update mine lose s id
        (λ x i e. let to = h m here x i (opaque_eq→≡ x.message_id m.message_id e) in (to, to, refl))
        c)

retire_proxy-Sound : (now : ℕ) (id : Opaque) (s : Store) → Sound s → Sound (retire_proxy now id s).1
unfolding retire_proxy
retire_proxy-Sound now id s (u, c) =
    let unclaimed = keep (unclaimed_from id) s.messages in
    let withdrawn = withdraw_each now unclaimed s in
    let waiting = keep (occupies id) withdrawn.messages in
    let (u', c') =
      withdraw_each-Sound now unclaimed s (λ m i. kept-Placed s (unclaimed_from id) m u i) (u, c) in
    let (u'', c'') =
      lose_each-Sound now id waiting withdrawn
        (λ m i.
          let to =
            opaque_eq→≡ m.to_endpoint id
              (and-eq-true (opaque_eq m.to_endpoint id) (is_pending m.state)
                (In-keep (occupies id) m withdrawn.messages i).1).0 in
          subst (Placed withdrawn m.message_id) to (kept-Placed withdrawn (occupies id) m u' i))
        u' (λ e i far. c' e i) in
    let lost = lose_each now id waiting withdrawn in
    (
      unfold recount in u'',
      endpoints-Counted (is_endpoint id) retire_endpoint (recount id lost) (λ x. (refl, refl, refl))
          (recount-Counted id lost c''),
    )

retire_each-Sound :
    (now : ℕ) (xs : List ProxyRow) (s : Store) → Sound s → Sound (retire_each now xs s).1
unfolding retire_each
retire_each-Sound now [] s h = h
retire_each-Sound now (x ∷ xs) s h =
    retire_each-Sound now xs (retire_proxy now x.endpoint_id s).1
      (retire_proxy-Sound now x.endpoint_id s h)

retire-After : (s : Store) (now : ℕ) (l : PeerLabel) → Sound s → After Sound (retire_peer s now l)
unfolding retire_peer
retire-After s now l h =
    on_option (find (labelled l) s.peers) _ _ (λ k. record { holds = h })
      (λ p k. record { holds = retire_each-Sound now (proxies_of p.peer_id s) s h })

pub retire_peer-Sound :
    (s : Store) (now : ℕ) (l : PeerLabel) → Sound s → Sound (retire_peer s now l).1
retire_peer-Sound s now l h = (retire-After s now l h).holds
