-- ===== src/Message/Draft.antt =====
-- agent-mesh-core/src/lib.rs: `Draft`, what a caller submits. The JSON of the references
-- (`serde_json`) and the hash (`sha2`) are arguments.
use vvagent.Base.{
  ℕ, zero, suc, ◌+◌, ◌-◌, ◌*◌, ◌/◌, ◌%◌, ◌^◌, Bool, ◌&&◌, ◌||◌, not, List, [], ◌∷◌, ◌++◌, Option,
  Text, if◌then◌else◌, codes, bytes, len, length, ltb, is_empty, is_some, is_none, is_some_and,
  unwrap_or,
}
use vvagent.Base.Int.{ℤ, pos, leb_ℤ}
use mathlib.Core.Option
use vvagent.Error.{Result, ok, ◌>>◌, refuse_if}
use vvagent.Address.Decimal.{decimal}
use vvagent.Identity.Opaque
use vvagent.Identity.Opaque.{Opaque, hex}
use vvagent.Message.Kind
use vvagent.Message.Kind.{Kind, request, response, notice}
use vvagent.Message.Outcome
use vvagent.Message.Outcome.{Outcome}
use vvagent.Message.Ref
use vvagent.Message.Ref.{Ref}

abbrev pub max_text_bytes : ℕ
max_text_bytes = 32 * 1024

abbrev pub max_subject_bytes : ℕ
max_subject_bytes = 256

abbrev pub max_refs : ℕ
max_refs = 16

abbrev pub max_idempotency_key_bytes : ℕ
max_idempotency_key_bytes = 128

abbrev pub max_request_lifetime_ms : ℕ
max_request_lifetime_ms = 7 * 24 * 60 * 60 * 1000

pub record Draft : Type 0 where
  pub to : Opaque
  pub kind : Kind
  pub reply_to : Option Opaque
  pub outcome : Option Outcome
  pub subject : Option Text
  pub text : Text
  pub refs : List Ref
  pub idempotency_key : Text
  pub expires_in_ms : Option ℤ

abbrev pub lifetime_in_range : ℤ → Bool
lifetime_in_range t = leb_ℤ (pos 1) t && leb_ℤ t (pos max_request_lifetime_ms)

-- The match on the kind at the end of `Draft::validate`.
unfoldable pub validate_kind : Kind → Option Opaque → Option Outcome → Result (Unit {0})
validate_kind response reply_to outcome = do
  refuse_if (is_none reply_to) (codes "a response must name the request it answers")
  refuse_if (is_none outcome) (codes "a response must carry an outcome")
validate_kind request reply_to outcome =
    refuse_if (is_some outcome) (codes "only a response carries an outcome")
validate_kind notice reply_to outcome =
    refuse_if (is_some outcome) (codes "only a response carries an outcome")

module _ (is_absolute : Text → Bool) where
  unfoldable pub validate_refs : List Ref → Result (Unit {0})
  validate_refs [] = ok tt
  validate_refs (r ∷ rs) = Ref.validate is_absolute r >> validate_refs rs

  unfoldable pub validate : Draft → Result (Unit {0})
  unfolding validate_refs validate_kind
  validate d = do
    refuse_if (ltb max_text_bytes (len d.text)) (
        codes "message text is "
        ++ (decimal (len d.text) ++ codes " bytes, over the 32768-byte limit"))
    refuse_if (is_some_and d.subject (λ s. ltb max_subject_bytes (len s))) (
        codes "subject is "
        ++ (decimal (len (unwrap_or d.subject [])) ++ codes " bytes, over the 256-byte limit"))
    refuse_if (ltb max_refs (length d.refs))
        (decimal (length d.refs) ++ codes " references, over the limit of 16")
    validate_refs d.refs
    refuse_if (is_empty d.idempotency_key || ltb max_idempotency_key_bytes (len d.idempotency_key))
        (codes "an idempotency key is 1..=128 bytes")
    refuse_if (is_some_and d.expires_in_ms (λ t. not (lifetime_in_range t)))
        (codes "a request lifetime is 1..=604800000 ms")
    validate_kind d.kind d.reply_to d.outcome

-- `u64::to_be_bytes`
unfoldable pub be_bytes : ℕ → ℕ → List ℕ
be_bytes zero n = []
be_bytes (suc k) n = (n / 256 ^ k % 256) ∷ be_bytes k n

-- One field of the digest: its length in eight bytes, then its bytes.
unfoldable pub field : List ℕ → List ℕ
field bs = be_bytes 8 (length bs % 2 ^ 64) ++ bs

unfoldable pub fields : List (List ℕ) → List ℕ
unfolding field
fields [] = []
fields (f ∷ fs) = field f ++ fields fs

module _ (refs_json : List Ref → Option Text) where
  unfoldable pub digest_fields : Draft → List (List ℕ)
  digest_fields d =
      bytes (Opaque.as_str d.to)
      ∷ bytes (Kind.as_str d.kind)
      ∷ bytes (unwrap_or (Option.map Opaque.as_str d.reply_to) [])
      ∷ bytes (unwrap_or (Option.map Outcome.as_str d.outcome) [])
      ∷ bytes (unwrap_or d.subject [])
      ∷ bytes d.text
      ∷ bytes (unwrap_or (refs_json d.refs) [])
      ∷ []

  unfoldable pub digest : (List ℕ → List ℕ) → Draft → Text
  unfolding digest_fields fields
  digest sha256 d = hex (sha256 (fields (digest_fields d)))

  -- `i64::try_from(...).unwrap_or(i64::MAX)`
  unfoldable pub charged_bytes : Draft → ℕ
  charged_bytes d =
      let total =
        len d.text
        + len (unwrap_or d.subject [])
        + unwrap_or (Option.map len (refs_json d.refs)) 0 in
      if ltb total (2 ^ 63) then total else 2 ^ 63 - 1
