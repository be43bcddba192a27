-- ===== src/Store/Waking.antt =====
-- `activatable` and `record_activation`: an attempt that is recorded is not repeated at every poll.
use vvagent.Base.{
  ℕ, ◌+◌, ◌<◌, ◌≡◌, ◌≢◌, ◌⊎◌, if◌then◌else◌, sym, ap, subst, ◌∙◌, inl, inr, Bool, true, arith, List,
  [], ◌∷◌, Option, none, some, keep, Text, Bool-cases, In, here, there, In-cons, In-nil, In-keep,
}
use vvagent.Capability.Mode.{DeliveryMode, activates}
use vvagent.Capability.Defs.{delivery_mode}
use vvagent.Error.{ok, >>=-eq-ok}
use vvagent.Identity.Opaque.{Opaque, opaque_eq, opaque_eq_refl}
use vvagent.Policy.Defs.{Rule, Gate}
use vvagent.Store.Tables.{Store, Message, is_message}
use vvagent.Store.Rows.{In-update}
use vvagent.Store.Queries.{message_decision}
use vvagent.Store.Receive.{by_sequence}
use vvagent.Store.Sequence.{by_sequence-In}
use vvagent.Store.Directory.{capabilities, endpoint}
use vvagent.Store.Activation.{
  Activatable, wakeable, rested, wake, wake_each, add_some, activatable, attempt, record_activation,
}

add_some-In :
    {A : Type 0} (x : A) (o : Option A) (xs : List A)
    → In x (add_some o xs)
    → (o ≡ some x) ⊎ In x xs
add_some-In x none xs i = inr i
add_some-In x (some y) xs i = elim (In-cons i) [ inl e ↦ inl (ap some (sym e)) | inr j ↦ inr j ]

wake_lem :
    (s : Store) (scope : Opaque) (m : Message) (found : Activatable)
    → wake s scope m ≡ ok (some found)
    → found.message ≡ m
unfolding wake
wake_lem s scope m found h =
    let (e, q, after) = >>=-eq-ok (endpoint s m.to_endpoint) _ h in
    elim (Bool-cases (activates (delivery_mode (capabilities s m.to_endpoint)))) [
      | inl on ↦
          let (d, q', after') =
            >>=-eq-ok (message_decision s m Gate.make_visible) _ (rw on at after) in
          cc
      | inr off ↦ cc (rw off at after)
    ]

wake_each-In :
    (s : Store) (scope : Opaque) (ms : List Message) (out : List Activatable) (found : Activatable)
    → wake_each s scope ms ≡ ok out
    → In found out
    → In found.message ms
unfolding wake_each
wake_each-In s scope [] out found h i =
    let same : [] ≡ out = cc in absurd (In-nil (subst (In found) (sym same) i))
wake_each-In s scope (m ∷ ms) out found h i =
    let (first, q, after) = >>=-eq-ok (wake s scope m) _ h in
    let (others, q', after') = >>=-eq-ok (wake_each s scope ms) _ after in
    let same : add_some first others ≡ out = cc in
    elim (add_some-In found first others (subst (In found) (sym same) i)) [
      | inl e ↦
          subst (λ (x : Message). In found.message (x ∷ ms))
            (wake_lem s scope m found (q ∙ ap ok e)) here
      | inr j ↦ there (wake_each-In s scope ms others found q' j)
    ]

not_rested :
    (at backoff_ms max_attempts now : ℕ) (n : Message)
    → now < at + backoff_ms
    → rested now backoff_ms max_attempts (attempt at n) ≡ true
    → ⊥
not_rested at backoff_ms max_attempts now n early h = ground arith

-- After an attempt to wake an agent for a message is recorded, whatever came of it, the message is
-- not among those to wake an agent for until the backoff has passed.
pub record_activation-rests :
    (s : Store) (at : ℕ) (id endpoint : Opaque) (mode : DeliveryMode) (rule : Rule) (outcome : Text)
    (scope : Opaque) (now backoff_ms max_attempts : ℕ) (out : List Activatable)
    (found : Activatable)
    → now < at + backoff_ms
    → activatable
        (record_activation s at id endpoint mode rule outcome)
        scope
        now
        backoff_ms
        max_attempts
      ≡ ok out
    → In found out
    → found.message.message_id ≢ id
unfolding activatable record_activation
record_activation-rests s at id endpoint mode rule outcome scope now backoff_ms max_attempts out
      found early h i same =
    let t = record_activation s at id endpoint mode rule outcome in
    let able = wakeable t scope now backoff_ms max_attempts in
    let j = wake_each-In t scope (by_sequence (keep able t.messages)) out found h i in
    let (k, e) = In-keep able found.message t.messages (by_sequence-In found.message _ j) in
    let (n, l, q) = In-update (is_message id) (attempt at) found.message s.messages k in
    elim (Bool-cases (is_message id n)) [
      | inl mine ↦
          let row : found.message ≡ attempt at n =
            q ∙ ap (λ (b : Bool). if b then attempt at n else n) mine in
          not_rested at backoff_ms max_attempts now n early (
            subst (λ (x : Message). rested now backoff_ms max_attempts x ≡ true) row
              (ground (arith, e)))
      | inr other ↦
          let row : found.message ≡ n =
            q ∙ ap (λ (b : Bool). if b then attempt at n else n) other in
          let itself : is_message id n ≡ true =
            ap (λ (a : Opaque). opaque_eq a id)
              (ap (λ (x : Message). x.message_id) (sym row) ∙ same)
            ∙ opaque_eq_refl id in
          ground (arith, itself, other)
    ]
