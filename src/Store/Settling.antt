-- ===== src/Store/Settling.antt =====
-- Cancelling keeps the counters right.
use vvagent.Base.{
  ℕ, ◌≡◌, ◌≢◌, refl, sym, ap, ◌∙◌, inl, inr, Bool, true, false, not, some, arith, if◌then◌else◌,
  find, ltb, In, Bool-cases, find-In,
}
use vvagent.Error.{ok, err, ◌>>◌, >>-eq-ok, ok_or-eq-ok}
use vvagent.Identity.Opaque.{Opaque, opaque_eq, opaque_eq→≡, opaque_eq_refl}
use vvagent.Message.State.{cancelled, cancellation_requested}
use vvagent.Store.Tables.{Store, Message, Caller, is_message, load_message}
use vvagent.Store.Rows.{update, changed, In-update, find-some}
use vvagent.Store.Receive.{set_state}
use vvagent.Store.Ending.{
  apply_cancel, is_queued_message, is_running_message, cancel, may_cancel, is_sender,
}
use vvagent.Store.Branches.{After, on_if, on_result}
use vvagent.Store.Counting.{
  Counted, CountedBut, update-SameLoad, same_row, update-Counted, recount-Counted,
}

-- The primary key of `message`: one row for an id.
abbrev pub Unique : Store → Type 0
Unique s = (m n : Message) → In m s.messages → In n s.messages → m.message_id ≡ n.message_id → m ≡ n

pub load-In :
    (s : Store) (id : Opaque) (m : Message)
    → load_message s id ≡ ok m
    → In m s.messages × (m.message_id ≡ id)
unfolding load_message
load-In s id m h =
    let (i, e) =
      find-In (is_message id) s.messages m (ok_or-eq-ok (find (is_message id) s.messages) _ h) in
    (i, opaque_eq→≡ m.message_id id e)

differ : (a b c : Opaque) → a ≡ b → c ≢ b → opaque_eq a c ≡ false
differ a b c q h = elim (Bool-cases (opaque_eq a c)) [
  | inl e ↦ absurd (h (sym (opaque_eq→≡ a c e) ∙ q))
  | inr e ↦ e
]

-- An update of messages to one endpoint leaves the others' rows right.
pub CountedBut-update :
    (p : Message → Bool) (f : Message → Message) (s : Store) (id : Opaque)
    → ((m : Message)
        → In m s.messages
        → p m ≡ true
        → (m.to_endpoint ≡ id) × ((f m).to_endpoint ≡ id) × ((f m).bytes ≡ m.bytes))
    → CountedBut id s
    → CountedBut id (record s { messages = update p f s.messages })
CountedBut-update p f s id h c e i far =
    same_row s (record s { messages = update p f s.messages }) e
      (update-SameLoad p f s e.endpoint_id (λ m j k.
        let (to, to', size) = h m j k in
        (
          ground (
            arith,
            differ m.to_endpoint id e.endpoint_id to far,
            differ (f m).to_endpoint id e.endpoint_id to' far,
          ),
          size,
        )))
      (c e i far)

pub update-CountedBut :
    (p : Message → Bool) (f : Message → Message) (s : Store) (id : Opaque)
    → ((m : Message)
        → In m s.messages
        → p m ≡ true
        → (m.to_endpoint ≡ id) × ((f m).to_endpoint ≡ id) × ((f m).bytes ≡ m.bytes))
    → Counted s
    → CountedBut id (record s { messages = update p f s.messages })
update-CountedBut p f s id h c = CountedBut-update p f s id h (λ e i far. c e i)

apply_cancel-Counted :
    (m : Message) (s : Store)
    → In m s.messages
    → Unique s
    → Counted s
    → Counted (apply_cancel m s).1
unfolding apply_cancel
apply_cancel-Counted m s i u c =
    elim (Bool-cases (ltb 0 (changed (is_queued_message m.message_id) s.messages))) [
      | inl waiting ↦ rw waiting (
          recount-Counted m.to_endpoint
            (record s {
              messages = update (is_queued_message m.message_id) (set_state cancelled) s.messages;
            })
            (update-CountedBut (is_queued_message m.message_id) (set_state cancelled) s
              m.to_endpoint
              (λ n j e.
                let same : n ≡ m =
                  u n m j i (opaque_eq→≡ n.message_id m.message_id (ground arith)) in
                let to : n.to_endpoint ≡ m.to_endpoint = ap (λ (x : Message). x.to_endpoint) same in
                (to, to, refl))
              c))
      | inr other ↦
          rw other
            (elim (Bool-cases (ltb 0 (changed (is_running_message m.message_id) s.messages))) [
              | inl busy ↦ rw busy (
                  update-Counted (is_running_message m.message_id)
                    (set_state cancellation_requested) s (λ id n j e. ground arith) c)
              | inr done ↦ rw done c
            ])
    ]

cancel-After :
    (s : Store) (now : ℕ) (c : Caller) (id : Opaque)
    → Unique s
    → Counted s
    → After Counted (cancel s now c id)
unfolding cancel
cancel-After s now c id u h =
    on_result (may_cancel s now c >> load_message s id) s err _ (λ e. h)
      (λ m q.
        let found : load_message s id ≡ ok m =
          ((>>-eq-ok (may_cancel s now c) (load_message s id) m).0 q).1 in
        on_if (not (is_sender c m)) (λ b. record { holds = h })
          (λ b. record { holds = apply_cancel-Counted m s (load-In s id m found).0 u h }))

-- `cancel` keeps the counters right, where message ids are unique.
pub cancel-Counted :
    (s : Store) (now : ℕ) (c : Caller) (id : Opaque)
    → Unique s
    → Counted s
    → Counted (cancel s now c id).1
cancel-Counted s now c id u h = (cancel-After s now c id u h).holds

-- An update that keeps the ids keeps them unique.
pub update-Unique :
    (p : Message → Bool) (f : Message → Message) (s : Store)
    → ((m : Message) → (f m).message_id ≡ m.message_id)
    → Unique s
    → Unique (record s { messages = update p f s.messages })
update-Unique p f s h u m n i j q =
    let (x, k, e) = In-update p f m s.messages i in
    let (y, l, g) = In-update p f n s.messages j in
    let id : (a : Message) → (if p a then f a else a).message_id ≡ a.message_id = λ a. kept a in
    let same : x ≡ y = u x y k l (
      sym (id x)
      ∙ sym (ap (λ (a : Message). a.message_id) e)
      ∙ q
      ∙ ap (λ (a : Message). a.message_id) g
      ∙ id y) in
    e ∙ ap (λ (a : Message). if p a then f a else a) same ∙ sym g
  where
    kept : (a : Message) → (if p a then f a else a).message_id ≡ a.message_id
    kept a = elim (Bool-cases (p a)) [ inl e ↦ rw e (h a) | inr e ↦ rw e ]

-- The row of a message that is in the table is the one that its id loads.
pub find_message :
    (s : Store) (m : Message)
    → In m s.messages
    → Unique s
    → find (is_message m.message_id) s.messages ≡ some m
find_message s m i u =
    let (x, q) = find-some (is_message m.message_id) m s.messages i (opaque_eq_refl m.message_id) in
    let (j, e) = find-In (is_message m.message_id) s.messages x q in
    q ∙ ap some (u x m j i (opaque_eq→≡ x.message_id m.message_id e))
