-- ===== src/Error.antt =====
-- agent-mesh-core/src/lib.rs: bounds, `ErrorCode`, `MeshError` and `Result`.
pub mod Code
use vvagent.Base.{
  ℕ, Bool, true, false, List, [], ◌++◌, Text, take, Option, none, some, ◌≡◌, refl, ◌⊎◌, inl, inr,
  ◌↔◌,
}

pub data ErrorCode : Type 0 where
  agent_not_found agent_ambiguous idempotency_conflict mailbox_full claim_lost : ErrorCode
  not_authorized invalid_request endpoint_limit not_found already_responded : ErrorCode
  expired schema_mismatch store_corrupt policy_refused rate_limited : ErrorCode
  peer_mismatch peer_retired peer_unreachable file_drop_unavailable : ErrorCode
  attachment_mismatch io : ErrorCode

pub record MeshError : Type 0 where
  pub code : ErrorCode
  pub message : Text
  pub candidates : List Text

abbrev pub max_ambiguous_candidates : ℕ
max_ambiguous_candidates = 8

abbrev pub new : ErrorCode → Text → MeshError
new code message = record { code = code; message = message; candidates = [] }

abbrev pub with_candidates : MeshError → List Text → MeshError
with_candidates e names = record e {
  candidates = e.candidates ++ take max_ambiguous_candidates names;
}

abbrev pub invalid : Text → MeshError
invalid message = new invalid_request message

pub data Result {ℓ} (T : Type ℓ) : Type ℓ where
  ok : (value : T) → Result T
  err : (error : MeshError) → Result T

-- `if refused { return Err(invalid(message)) }`
abbrev pub refuse_if : Bool → Text → Result (Unit {0})
refuse_if true message = err (invalid message)
refuse_if false message = ok tt

module _ {ℓ} {T : Type ℓ} where
  -- `Result::ok`
  abbrev pub ok_value : Result T → Option T
  ok_value (ok value) = some value
  ok_value (err error) = none

  -- `Option::ok_or_else`
  abbrev pub ok_or : Option T → MeshError → Result T
  ok_or none error = err error
  ok_or (some value) error = ok value

  pub ok_or-eq-ok :
      (o : Option T) (error : MeshError) {value : T} → ok_or o error ≡ ok value → o ≡ some value
  ok_or-eq-ok none error h = cc
  ok_or-eq-ok (some value) error h = cc

  pub Result-cases :
      (r : Result T) → ((value : T) × (r ≡ ok value)) ⊎ ((error : MeshError) × (r ≡ err error))
  Result-cases (ok value) = inl (value, refl)
  Result-cases (err error) = inr (error, refl)

pub refuse_if_iff : (b : Bool) (message : Text) → (refuse_if b message ≡ ok tt) ↔ (b ≡ false)
refuse_if_iff true m = ((λ h. cc), (λ h. cc))
refuse_if_iff false m = ((λ h. refl), (λ h. refl))

infixl 5 ◌>>=◌ ◌>>◌
-- `?`: an error leaves at once.
abbrev pub ◌>>=◌ {ℓ κ} : {S : Type ℓ} {T : Type κ} → Result S → (S → Result T) → Result T
err error >>= next = err error
ok value >>= next = next value

-- `?` on a step that only checks.
abbrev pub ◌>>◌ {ℓ} : {T : Type ℓ} → Result (Unit {0}) → Result T → Result T
check >> rest = check >>= λ done. rest

-- What succeeds has succeeded in each step.
pub >>=-eq-ok {ℓ κ} :
    {S : Type ℓ} {T : Type κ} (first : Result S) (next : S → Result T) {t : T}
    → (first >>= next) ≡ ok t
    → (value : S) × (first ≡ ok value) × (next value ≡ ok t)
>>=-eq-ok (err error) next h = cc
>>=-eq-ok (ok value) next h = (value, refl, h)

-- A check in front of others.
pub >>-eq-ok {ℓ} :
    {B : Type ℓ} (m : Result (Unit {0})) (k : Result B) (b : B)
    → ((m >> k) ≡ ok b) ↔ ((m ≡ ok tt) × (k ≡ ok b))
>>-eq-ok (ok a) k b = ((λ h. (refl, h)), (λ h. h.1))
>>-eq-ok (err e) k b = ((λ h. cc), (λ h. cc))

-- What a chain of checks accepts is what each of them accepts.
pub check_last :
    {P : Type 0} (b : Bool) (message : Text) → (b ≡ false) ↔ P → (refuse_if b message ≡ ok tt) ↔ P
check_last b m h = ((λ k. h.0 ((refuse_if_iff b m).0 k)), (λ k. (refuse_if_iff b m).1 (h.1 k)))

pub check_then :
    {P Q : Type 0} (m k : Result (Unit {0}))
    → (m ≡ ok tt) ↔ P
    → (k ≡ ok tt) ↔ Q
    → ((m >> k) ≡ ok tt) ↔ (P × Q)
check_then m k h l = (
  λ e. let (x, y) = (>>-eq-ok m k tt).0 e in (h.0 x, l.0 y),
  λ e. (>>-eq-ok m k tt).1 (h.1 e.0, l.1 e.1),
)
