-- ===== src/Store/Peers/Pinned.antt =====
-- Pinning keeps every live label and every live host to one peer.
use vvagent.Base.{
  ℕ, ◌≡◌, ◌≢◌, refl, sym, ap, ◌∙◌, inl, inr, Bool, true, false, not, ◌&&◌, List, [], ◌∷◌, ◌++◌,
  none, some, arith, codes, find, is_some, is_some_and, text_eq, text_eq→≡, text_eq_refl, In,
  In-cons, In-nil, In-append, Bool-cases, find-none, and-eq-true,
}
use vvagent.Error.{Result, ok, err, MeshError, new, invalid, peer_mismatch}
use vvagent.Identity.Opaque.{Opaque, opaque_eq, opaque_eq→≡, opaque_eq_refl, ne→opaque_eq}
use vvagent.Identity.PeerLabel
use vvagent.Identity.PeerLabel.{PeerLabel}
use vvagent.Store.Tables.{Store, PeerRow, find_peer}
use vvagent.Store.Rows.{find-append}
use vvagent.Store.Branches.{Sat, After, on_if, on_option}
use vvagent.Store.Peers.Pins.{pin_peer, labelled, on_host, pinned_row, pinned_to_another}

-- Of the peers that are not retired, no two share a label or a host, and none is this store.
pub record Apart (this_host : Opaque) (peers : List PeerRow) : Type 0 where
  pub one_label :
      (p q : PeerRow) (l : PeerLabel)
      → In p peers
      → In q peers
      → labelled l p ≡ true
      → labelled l q ≡ true
      → p ≡ q
  pub one_host :
      (p q : PeerRow) (host : Opaque)
      → In p peers
      → In q peers
      → on_host host p ≡ true
      → on_host host q ≡ true
      → p ≡ q
  pub not_this : (p : PeerRow) → In p peers → p.host_id ≢ this_host

abbrev pub Pinned : Store → Type 0
Pinned s = Apart s.host_id s.peers

-- A row added to a list in which no other passes the test.
one_after {ℓ} :
    {A : Type ℓ} (test : A → Bool) (xs : List A) (new : A)
    → ((p q : A) → In p xs → In q xs → test p ≡ true → test q ≡ true → p ≡ q)
    → (test new ≡ true → find test xs ≡ none)
    → (p q : A) → In p (xs ++ new ∷ [])
    → In q (xs ++ new ∷ [])
    → test p ≡ true
    → test q ≡ true
    → p ≡ q
one_after test xs new one free p q i j hp hq = elim (In-append xs i) [
  | inl old ↦ elim (In-append xs j) [
    | inl old' ↦ one p q old old' hp hq
    | inr last' ↦ elim (In-cons last') [
      | inl e ↦ cc (hp, find-none test xs (free (sym (ap test e) ∙ hq)) p old)
      | inr nil ↦ absurd (In-nil nil)
    ]
  ]
  | inr last ↦ elim (In-cons last) [
    | inr nil ↦ absurd (In-nil nil)
    | inl e ↦ elim (In-append xs j) [
      | inl old' ↦ cc (hq, find-none test xs (free (sym (ap test e) ∙ hp)) q old')
      | inr last' ↦ elim (In-cons last') [ inl e' ↦ e ∙ sym e' | inr nil ↦ absurd (In-nil nil) ]
    ]
  ]
]

pin_new-Pinned :
    (s : Store) (l : PeerLabel) (host fresh : Opaque)
    → opaque_eq host s.host_id ≡ false
    → find (labelled l) s.peers ≡ none
    → find (on_host host) s.peers ≡ none
    → Pinned s
    → Pinned (record s { peers = s.peers ++ pinned_row l host fresh ∷ [] })
pin_new-Pinned s l host fresh foreign no_label no_host h = record {
  one_label = λ p q k.
      one_after (labelled k) s.peers (pinned_row l host fresh)
        (λ p' q' i j. h.one_label p' q' k i j)
        (λ e.
          let same : PeerLabel.as_str l ≡ PeerLabel.as_str k =
            text_eq→≡ (PeerLabel.as_str l) (PeerLabel.as_str k)
              (and-eq-true (text_eq (PeerLabel.as_str l) (PeerLabel.as_str k)) true e).0 in
          ap
            (λ t.
              find (λ p. is_some_and p.label (λ m. text_eq (PeerLabel.as_str m) t) && not p.retired)
                s.peers)
            (sym same)
          ∙ no_label)
        p q;
  one_host = λ p q at.
      one_after (on_host at) s.peers (pinned_row l host fresh)
        (λ p' q' i j. h.one_host p' q' at i j)
        (λ e.
          let same : host ≡ at = opaque_eq→≡ host at (and-eq-true (opaque_eq host at) true e).0 in
          ap (λ a. find (on_host a) s.peers) (sym same) ∙ no_host)
        p q;
  not_this = λ p i. elim (In-append s.peers i) [
    | inl old ↦ h.not_this p old
    | inr last ↦ elim (In-cons last) [
      | inl e ↦
          λ k. cc (foreign, sym (ap (λ (r : PeerRow). r.host_id) e) ∙ k, opaque_eq_refl s.host_id)
      | inr nil ↦ absurd (In-nil nil)
    ]
  ];
}

pin-After :
    (s : Store) (now : ℕ) (l : PeerLabel) (host fresh : Opaque)
    → Pinned s
    → After Pinned (pin_peer s now l host fresh)
unfolding pin_peer
pin-After s now l host fresh h =
    on_if (opaque_eq host s.host_id) (λ q. record { holds = h })
      (λ q.
        on_option (find (labelled l) s.peers) _ _
          (λ k.
            on_option (find (on_host host) s.peers) _ _
              (λ j.
                on_if (is_some (find_peer s fresh)) (λ q'. record { holds = h })
                  (λ q'. record { holds = pin_new-Pinned s l host fresh q k j h }))
              (λ other j. record { holds = h }))
          (λ p k.
            on_if (not (opaque_eq p.host_id host)) (λ q'. record { holds = h })
              (λ q'. record { holds = h })))

-- Pinning a peer keeps each live label and each live host with one peer, and no peer is this store.
pub pin_peer-Pinned :
    (s : Store) (now : ℕ) (l : PeerLabel) (host fresh : Opaque)
    → Pinned s
    → Pinned (pin_peer s now l host fresh).1
pin_peer-Pinned s now l host fresh h = (pin-After s now l host fresh h).holds

-- What a successful pin leaves under its label.
pin-Sat :
    (s : Store) (now : ℕ) (l : PeerLabel) (host fresh : Opaque)
    → Sat {B = Result PeerRow}
        (λ x.
          (p : PeerRow) → x.0 ≡ ok p → (find (labelled l) x.1.peers ≡ some p) × (p.host_id ≡ host))
        (pin_peer s now l host fresh)
unfolding pin_peer
pin-Sat s now l host fresh =
    on_if (opaque_eq host s.host_id) (λ q. record { holds = λ p r. cc })
      (λ q.
        on_option (find (labelled l) s.peers) _ _
          (λ k.
            on_option (find (on_host host) s.peers) _ _
              (λ j.
                on_if (is_some (find_peer s fresh)) (λ q'. record { holds = λ p r. cc })
                  (λ q'. record {
                    holds = λ p r.
                        let same : pinned_row l host fresh ≡ p = cc in
                        (
                          find-append (labelled l) s.peers (pinned_row l host fresh) k
                                (rw (text_eq_refl (PeerLabel.as_str l)) refl)
                              ∙ ap some same,
                          sym (ap (λ (x : PeerRow). x.host_id) same),
                        );
                  }))
              (λ other j. record { holds = λ p r. cc }))
          (λ p k.
            on_if (not (opaque_eq p.host_id host)) (λ q'. record { holds = λ p' r. cc })
              (λ q'. record {
                holds = λ p' r.
                    let same : p ≡ p' = cc in
                    (
                      k ∙ ap some same,
                      sym (ap (λ (x : PeerRow). x.host_id) same)
                          ∙ opaque_eq→≡ p.host_id host (ground arith),
                    );
              })))

pin_other :
    (t : Store) (later : ℕ) (l : PeerLabel) (other fresh : Opaque) (p : PeerRow)
    → find (labelled l) t.peers ≡ some p
    → opaque_eq p.host_id other ≡ false
    → (e : MeshError) × (pin_peer t later l other fresh ≡ (err e, t))
unfolding pin_peer
pin_other t later l other fresh p found far = elim (Bool-cases (opaque_eq other t.host_id)) [
  | inl own ↦ (invalid (codes "that is this store; a host cannot be its own peer"), rw own refl)
  | inr foreign ↦ (
    new peer_mismatch (pinned_to_another l p other),
    rw (foreign, pin_peer) (rw (found, pin_peer) (rw far refl)),
  )
]

-- A label that was pinned to a host is refused for every other host, which changes nothing.
pub pin_peer-pin_peer :
    (s : Store) (now later : ℕ) (l : PeerLabel) (host other fresh fresh' : Opaque) (p : PeerRow)
    → (pin_peer s now l host fresh).0 ≡ ok p
    → other ≢ host
    → (e : MeshError) × (pin_peer (pin_peer s now l host fresh).1 later l other fresh'
        ≡ (err e, (pin_peer s now l host fresh).1))
pin_peer-pin_peer s now later l host other fresh fresh' p h far =
    let (found, on) = (pin-Sat s now l host fresh).holds p h in
    pin_other (pin_peer s now l host fresh).1 later l other fresh' p found
      (ne→opaque_eq p.host_id other (λ q. far (sym q ∙ on)))
