-- ===== src/Store/Claiming.antt =====
-- Which message a claim takes, and that claiming keeps the counters right.
use vvagent.Base.{
  ℕ, ◌<◌, ◌≡◌, refl, sym, ap, subst, ◌∙◌, inl, inr, Bool, true, false, ◌&&◌, List, [], ◌∷◌, some,
  arith, codes, if◌then◌else◌, find, In, here, there, In-cons, Bool-cases,
}
use vvagent.Error.{ok, >>=-eq-ok, ok_or, new, not_found}
use vvagent.Identity.Opaque.{Opaque, opaque_eq→≡, opaque_eq_refl}
use vvagent.Message.State.{consumed}
use vvagent.Policy.Defs.{Gate, Decision, Rule}
use vvagent.Store.Tables.{Store, Message, is_message, load_message, saturating_add}
use vvagent.Store.Rows.{update, In-update, find-update}
use vvagent.Store.Queries.{recount, message_decision}
use vvagent.Store.Receive.{
  claimable, is_queued, first_visible, take_claim, apply_claim, release, is_notice,
}
use vvagent.Store.Counting.{Counted, update-Counted, recount-Counted}
use vvagent.Store.Settling.{Unique, update-CountedBut, find_message}
use vvagent.Store.Sequence.{Sorted}

-- The policy of the recipient lets the message be seen.
abbrev pub Visible : Store → Message → Type 0
Visible s m = (d : Decision) × (message_decision s m Gate.make_visible ≡ ok d) × (d.allowed ≡ true)

-- The policy of the recipient refuses it.
abbrev pub Refused : Store → Message → Type 0
Refused s m = (d : Decision) × (message_decision s m Gate.make_visible ≡ ok d) × (d.allowed ≡ false)

pub first_visible_lem :
    (s : Store) (ms : List Message) (m : Message) (rule : Rule)
    → first_visible s ms ≡ ok (some (m, rule))
    → Sorted ms
    → In m ms
      × Visible s m
      × ((n : Message) → In n ms → n.recipient_sequence < m.recipient_sequence → Refused s n)
unfolding first_visible
first_visible_lem s [] m rule h o = cc
first_visible_lem s (x ∷ ms) m rule h o =
    let (d, q, h1) = >>=-eq-ok (message_decision s x Gate.make_visible) _ h in
    elim (Bool-cases d.allowed) [
      | inl seen ↦
          let same : x ≡ m = cc (rw seen at h1) in
          (
            subst (λ (y : Message). In y (x ∷ ms)) same here,
            (
              d,
              subst (λ (y : Message). message_decision s y Gate.make_visible ≡ ok d) same q,
              seen,
            ),
            λ n i lt. elim (In-cons i) [
              | inl e ↦
                  absurd (omega (arith, ap (λ (y : Message). y.recipient_sequence) (e ∙ same)))
              | inr j ↦
                  absurd (omega (arith, o.0 n j, ap (λ (y : Message). y.recipient_sequence) same))
            ],
          )
      | inr hidden ↦
          let (i, v, r) = first_visible_lem s ms m rule (rw hidden at h1) o.1 in
          (
            there i,
            v,
            λ n j lt. elim (In-cons j) [
              | inl e ↦ (
                d,
                subst (λ (y : Message). message_decision s y Gate.make_visible ≡ ok d) (sym e) q,
                hidden,
              )
              | inr k ↦ r n k lt
            ],
          )
    ]

-- What a claim makes of the row that it takes.
abbrev pub settled : Opaque → ℕ → Bool → Message → Message
settled incarnation expires_at consumes m =
    if consumes && is_notice m.kind
    then release consumed (take_claim incarnation expires_at m)
    else take_claim incarnation expires_at m

-- The claim of a caller whose identity is known.
pub apply_claim-load :
    (now : ℕ) (endpoint incarnation : Opaque) (lease : ℕ) (consumes : Bool) (m : Message)
    (rule : Rule) (s : Store)
    → In m s.messages
    → Unique s
    → load_message (apply_claim now endpoint incarnation lease consumes m rule s) m.message_id
      ≡ ok (settled incarnation (saturating_add now lease) consumes m)
unfolding load_message apply_claim recount
apply_claim-load now endpoint incarnation lease consumes m rule s i u =
    let t = saturating_add now lease in
    let lost = new not_found (codes "no such message") in
    let mine = is_message m.message_id in
    let self : mine m ≡ true = opaque_eq_refl m.message_id in
    let held =
      find-update mine mine (take_claim incarnation t) m s.messages (λ y. refl)
        (find_message s m i u) in
    let held' : find mine (update mine (take_claim incarnation t) s.messages)
        ≡ some (take_claim incarnation t m) =
      held ∙ ap (λ (b : Bool). some (if b then take_claim incarnation t m else m)) self in
    elim (Bool-cases (consumes && is_notice m.kind)) [
      | inl both ↦
          let gone =
            find-update mine mine (release consumed) (take_claim incarnation t m) _ (λ y. refl)
              held' in
          let gone' : find mine
                (update mine (release consumed) (update mine (take_claim incarnation t) s.messages))
              ≡ some (release consumed (take_claim incarnation t m)) =
            gone
            ∙ ap
                (λ (b : Bool). some (
                  if b
                  then release consumed (take_claim incarnation t m)
                  else take_claim incarnation t m))
                self in
          rw both (ap (λ o. ok_or o lost) gone')
      | inr one ↦ rw one (ap (λ o. ok_or o lost) held')
    ]

pub apply_claim-Counted :
    (now : ℕ) (endpoint incarnation : Opaque) (lease : ℕ) (consumes : Bool) (m : Message)
    (rule : Rule) (s : Store)
    → In m s.messages
    → claimable now endpoint m ≡ true
    → Unique s
    → Counted s
    → Counted (apply_claim now endpoint incarnation lease consumes m rule s)
unfolding apply_claim
apply_claim-Counted now endpoint incarnation lease consumes m rule s i ready u c =
    let t = saturating_add now lease in
    let mine = is_message m.message_id in
    let held = record s { messages = update mine (take_claim incarnation t) s.messages } in
    let own : (n : Message) → In n s.messages → mine n ≡ true → n ≡ m =
      λ n j e. u n m j i (opaque_eq→≡ n.message_id m.message_id e) in
    let waiting : is_queued m.state ≡ true = ground arith in
    let right : Counted held =
      update-Counted mine (take_claim incarnation t) s
        (λ id n j e.
          let q = ap (λ (x : Message). is_queued x.state) (own n j e) ∙ waiting in ground arith)
        c in
    let to : m.to_endpoint ≡ endpoint = opaque_eq→≡ m.to_endpoint endpoint (ground arith) in
    elim (Bool-cases (consumes && is_notice m.kind)) [
      | inl both ↦ rw both (
          recount-Counted endpoint
            (record held { messages = update mine (release consumed) held.messages })
            (update-CountedBut mine (release consumed) held endpoint
              (λ n j e.
                let (x, k, q) = In-update mine (take_claim incarnation t) n s.messages j in
                let same : mine n ≡ mine x = claimed_id x n q in
                let dest : n.to_endpoint ≡ endpoint =
                  claimed_to x n q
                  ∙ ap (λ (y : Message). y.to_endpoint) (own x k (sym same ∙ e))
                  ∙ to in
                (dest, dest, refl))
              right))
      | inr one ↦ rw one right
    ]
  where
    claimed_id :
        (x n : Message)
        → n ≡ (
            if is_message m.message_id x
            then take_claim incarnation (saturating_add now lease) x
            else x)
        → is_message m.message_id n ≡ is_message m.message_id x
    claimed_id x n q = elim (Bool-cases (is_message m.message_id x)) [
      | inl e ↦ ap (is_message m.message_id) (rw e at q)
      | inr e ↦ ap (is_message m.message_id) (rw e at q)
    ]

    claimed_to :
        (x n : Message)
        → n ≡ (
            if is_message m.message_id x
            then take_claim incarnation (saturating_add now lease) x
            else x)
        → n.to_endpoint ≡ x.to_endpoint
    claimed_to x n q = elim (Bool-cases (is_message m.message_id x)) [
      | inl e ↦ ap (λ (y : Message). y.to_endpoint) (rw e at q)
      | inr e ↦ ap (λ (y : Message). y.to_endpoint) (rw e at q)
    ]
