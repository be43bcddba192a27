-- ===== src/Message/Bounds.antt =====
-- What `Ref::validate` and `Draft::validate` accept, as bounds on the parts.
use vvagent.Base.{
  ℕ, ◌≤◌, ◌≡◌, ◌≢◌, refl, ◌↔◌, Bool, true, false, ◌||◌, not, List, [], ◌∷◌, Option, none, some,
  arith, Text, if◌then◌else◌, bytes, len, length, ltb, ◌==◌, any, all, is_empty, is_some, is_none,
  is_some_and, is_ascii_hexdigit, In, any-false_iff, or-eq-false_left, or-eq-false_right,
}
use vvagent.Base.Int.{ℤ, pos, negsuc, ◌≤ℤ◌}
use vvagent.Error.{ok, refuse_if, check_last, check_then}
use vvagent.Identity.Opaque.{Opaque}
use vvagent.Message.Kind.{Kind, request, response, notice}
use vvagent.Message.Outcome.{Outcome}
use vvagent.Message.Ref.{
  Ref, PaneRef, file, pane, media, control_byte, bad_digest, bad_label, check, on_peer,
  looks_absolute_anywhere, max_path_bytes, max_resource_id_bytes, max_pane_field_bytes,
}
use vvagent.Message.Ref
use vvagent.Message.Draft
use vvagent.Message.Draft.{
  Draft, validate_refs, validate_kind, lifetime_in_range, max_text_bytes, max_subject_bytes,
  max_refs, max_idempotency_key_bytes, max_request_lifetime_ms,
}

-- No byte is a control byte.
abbrev pub Clean : Text → Type 0
Clean s = (b : ℕ) → In b (bytes s) → (0x20 ≤ b) × (b ≢ 0x7f)

abbrev pub Sha256 : Option Text → Type 0
Sha256 none = Unit {0}
Sha256 (some d) = (len d ≡ 64) × (all is_ascii_hexdigit (bytes d) ≡ true)

abbrev pub Label : Option Text → Type 0
Label none = Unit {0}
Label (some s) = (len s ≤ max_pane_field_bytes) × Clean s

module _ (is_absolute : Text → Bool) where
  abbrev pub Absolute : Bool → Text → Type 0
  Absolute true path = looks_absolute_anywhere path ≡ true
  Absolute false path = is_absolute path ≡ true

  -- A reference within its bounds: labels are short, no text holds a control byte, a path is
  -- absolute where it is judged, and a digest is 64 hex characters.
  abbrev pub WellFormed : Bool → Ref → Type 0
  WellFormed elsewhere (file path sha256 size host) =
      ((path ≢ []) × (len path ≤ max_path_bytes))
      × (Clean path × (Absolute elsewhere path × Sha256 sha256))
  WellFormed elsewhere (pane id l) = Label l.workspace × Label l.tab
  WellFormed elsewhere (media id resource binding) =
      ((resource ≢ []) × (len resource ≤ max_resource_id_bytes)) × Clean resource

control_byte_iff : (b : ℕ) → (control_byte b ≡ false) ↔ ((0x20 ≤ b) × (b ≢ 0x7f))
unfolding control_byte
control_byte_iff b = ((λ h. ground arith), (λ h. ground arith))

Clean-iff : (s : Text) → (any control_byte (bytes s) ≡ false) ↔ Clean s
Clean-iff s = (
  λ h b m. (control_byte_iff b).0 ((any-false_iff control_byte (bytes s)).0 h b m),
  λ h. (any-false_iff control_byte (bytes s)).1 (λ b m. (control_byte_iff b).1 (h b m)),
)

size_iff : (s : Text) (n : ℕ) → ((is_empty s || ltb n (len s)) ≡ false) ↔ ((s ≢ []) × (len s ≤ n))
size_iff [] n = ((λ h. cc), (λ h. absurd (h.0 refl)))
size_iff (c ∷ s) n = ((λ h. ((λ e. cc), ground arith)), (λ h. ground arith))

sha_iff : (o : Option Text) → (is_some_and o bad_digest ≡ false) ↔ Sha256 o
unfolding bad_digest
sha_iff none = ((λ h. tt), (λ h. refl))
sha_iff (some d) = ((λ h. ground arith), (λ h. ground arith))

label_byte_iff : (b : ℕ) → ((ltb b 0x20 || b == 0x7f) ≡ false) ↔ ((0x20 ≤ b) × (b ≢ 0x7f))
label_byte_iff b = ((λ h. ground arith), (λ h. ground arith))

Label-iff : (o : Option Text) → (is_some_and o bad_label ≡ false) ↔ Label o
unfolding bad_label
Label-iff none = ((λ h. tt), (λ h. refl))
Label-iff (some s) = (
  λ h. (
    let short = or-eq-false_left (ltb max_pane_field_bytes (len s)) _ h in ground arith,
    λ b m. (label_byte_iff b).0 (
        (any-false_iff _ (bytes s)).0 (or-eq-false_right (ltb max_pane_field_bytes (len s)) _ h) b
          m),
  ),
  λ h.
      let clean =
        (any-false_iff (λ b. ltb b 0x20 || b == 0x7f) (bytes s)).1
          (λ b m. (label_byte_iff b).1 (h.1 b m)) in
      ground arith,
)

Absolute-iff :
    (is_absolute : Text → Bool) (elsewhere : Bool) (path : Text)
    → (not (if elsewhere then looks_absolute_anywhere path else is_absolute path) ≡ false)
      ↔ Absolute is_absolute elsewhere path
Absolute-iff is_absolute true path = ((λ h. ground arith), (λ h. ground arith))
Absolute-iff is_absolute false path = ((λ h. ground arith), (λ h. ground arith))

check_iff :
    (is_absolute : Text → Bool) (elsewhere : Bool) (r : Ref)
    → (check is_absolute elsewhere r ≡ ok tt) ↔ WellFormed is_absolute elsewhere r
unfolding check
check_iff is_absolute elsewhere (file path sha256 size host) =
    check_then (refuse_if _ _) _ (check_last _ _ (size_iff path max_path_bytes)) (
      check_then (refuse_if _ _) _ (check_last _ _ (Clean-iff path)) (
        check_then (refuse_if _ _) _ (check_last _ _ (Absolute-iff is_absolute elsewhere path))
          (check_last _ _ (sha_iff sha256))))
check_iff is_absolute elsewhere (pane id l) =
    check_then (refuse_if _ _) _ (check_last _ _ (Label-iff l.workspace))
      (check_last _ _ (Label-iff l.tab))
check_iff is_absolute elsewhere (media id resource binding) =
    check_then (refuse_if _ _) _ (check_last _ _ (size_iff resource max_resource_id_bytes))
      (check_last _ _ (Clean-iff resource))

-- A reference is accepted exactly when it is within its bounds. A path is judged by this host's
-- rule, and a path that names a peer host by the rules of any platform.
pub validate_iff :
    (is_absolute : Text → Bool) (r : Ref)
    → (Ref.validate is_absolute r ≡ ok tt) ↔ WellFormed is_absolute (on_peer is_absolute r) r
unfolding Ref.validate
validate_iff is_absolute r = check_iff is_absolute (on_peer is_absolute r) r

-- A reference from elsewhere is accepted exactly when it is within its bounds, and every path in it
-- is judged by the rules of any platform.
pub validate_elsewhere_iff :
    (is_absolute : Text → Bool) (r : Ref)
    → (Ref.validate_elsewhere is_absolute r ≡ ok tt) ↔ WellFormed is_absolute true r
unfolding Ref.validate_elsewhere
validate_elsewhere_iff is_absolute r = check_iff is_absolute true r

module _ (is_absolute : Text → Bool) where
  abbrev pub AllWellFormed : List Ref → Type 0
  AllWellFormed [] = Unit {0}
  AllWellFormed (r ∷ rs) = WellFormed is_absolute (on_peer is_absolute r) r × AllWellFormed rs

  refs_iff : (rs : List Ref) → (validate_refs is_absolute rs ≡ ok tt) ↔ AllWellFormed rs
  unfolding validate_refs
  refs_iff [] = ((λ h. tt), (λ h. refl))
  refs_iff (r ∷ rs) =
      check_then (Ref.validate is_absolute r) (validate_refs is_absolute rs)
        (validate_iff is_absolute r) (refs_iff rs)

abbrev pub SubjectFits : Option Text → Type 0
SubjectFits none = Unit {0}
SubjectFits (some s) = len s ≤ max_subject_bytes

subject_iff :
    (o : Option Text) → (is_some_and o (λ s. ltb max_subject_bytes (len s)) ≡ false) ↔ SubjectFits o
subject_iff none = ((λ h. tt), (λ h. refl))
subject_iff (some s) = ((λ h. ground arith), (λ h. ground arith))

-- Between one millisecond and seven days.
abbrev pub LifetimeFits : Option ℤ → Type 0
LifetimeFits none = Unit {0}
LifetimeFits (some t) = (pos 1 ≤ℤ t) × (t ≤ℤ pos max_request_lifetime_ms)

pub lifetime_iff :
    (o : Option ℤ) → (is_some_and o (λ t. not (lifetime_in_range t)) ≡ false) ↔ LifetimeFits o
lifetime_iff none = ((λ h. tt), (λ h. refl))
lifetime_iff (some (pos n)) = ((λ h. ground arith), (λ h. ground arith))
lifetime_iff (some (negsuc n)) = ((λ h. ground arith), (λ h. ground arith))

-- A response answers a request with an outcome; nothing else carries an outcome.
abbrev pub KindFits : Kind → Option Opaque → Option Outcome → Type 0
KindFits response reply_to outcome = (reply_to ≢ none) × (outcome ≢ none)
KindFits request reply_to outcome = outcome ≡ none
KindFits notice reply_to outcome = outcome ≡ none

is_none_iff {ℓ} : {A : Type ℓ} (o : Option A) → (is_none o ≡ false) ↔ (o ≢ none)
is_none_iff none = ((λ h. cc), (λ h. absurd (h refl)))
is_none_iff (some a) = ((λ h e. cc), (λ h. refl))

is_some_iff {ℓ} : {A : Type ℓ} (o : Option A) → (is_some o ≡ false) ↔ (o ≡ none)
is_some_iff none = ((λ h. refl), (λ h. refl))
is_some_iff (some a) = ((λ h. cc), (λ h. cc))

kind_iff :
    (k : Kind) (reply_to : Option Opaque) (outcome : Option Outcome)
    → (validate_kind k reply_to outcome ≡ ok tt) ↔ KindFits k reply_to outcome
unfolding validate_kind
kind_iff response reply_to outcome =
    check_then (refuse_if _ _) _ (check_last _ _ (is_none_iff reply_to))
      (check_last _ _ (is_none_iff outcome))
kind_iff request reply_to outcome = check_last _ _ (is_some_iff outcome)
kind_iff notice reply_to outcome = check_last _ _ (is_some_iff outcome)

le_iff : (n m : ℕ) → (ltb n m ≡ false) ↔ (m ≤ n)
le_iff n m = ((λ h. ground arith), (λ h. ground arith))

-- A draft is accepted exactly when its text is at most 32 KiB, its subject at most 256 bytes, its
-- references at most sixteen and each within its bounds, its idempotency key 1 to 128 bytes, its
-- lifetime between one millisecond and seven days, and its kind fits its answer and outcome.
pub Draft-validate_iff :
    (is_absolute : Text → Bool) (d : Draft)
    → (Draft.validate is_absolute d ≡ ok tt) ↔ (
        (len d.text ≤ max_text_bytes)
        × (SubjectFits d.subject
            × ((length d.refs ≤ max_refs)
                × (AllWellFormed is_absolute d.refs
                    × (((d.idempotency_key ≢ [])
                          × (len d.idempotency_key ≤ max_idempotency_key_bytes))
                        × (LifetimeFits d.expires_in_ms × KindFits d.kind d.reply_to d.outcome))))))
unfolding Draft.validate
Draft-validate_iff is_absolute d =
    check_then (refuse_if _ _) _ (check_last _ _ (le_iff max_text_bytes (len d.text))) (
      check_then (refuse_if _ _) _ (check_last _ _ (subject_iff d.subject)) (
        check_then (refuse_if _ _) _ (check_last _ _ (le_iff max_refs (length d.refs))) (
          check_then (validate_refs is_absolute d.refs) _ (refs_iff is_absolute d.refs) (
            check_then (refuse_if _ _) _
              (check_last _ _ (size_iff d.idempotency_key max_idempotency_key_bytes))
              (check_then (refuse_if _ _) _ (check_last _ _ (lifetime_iff d.expires_in_ms))
                (kind_iff d.kind d.reply_to d.outcome))))))
