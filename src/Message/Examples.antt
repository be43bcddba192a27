-- ===== src/Message/Examples.antt =====
-- A request with one file reference, run through the code and the theorems.
use vvagent.Base.{
  ℕ, ◌≤◌, ◌≡◌, ◌≢◌, refl, ◌↔◌, Bool, true, false, List, [], ◌∷◌, Option, none, some, arith, Text,
  codes, bytes, utf8, len, length, unwrap_or,
}
use mathlib.Core.Option
use vvagent.Base.Int.{pos}
use vvagent.Error.{ok}
use vvagent.Identity.Opaque
use vvagent.Identity.Opaque.{Opaque}
use vvagent.Message.Kind
use vvagent.Message.Kind.{Kind, request}
use vvagent.Message.Outcome
use vvagent.Message.Ref.{Ref, file}
use vvagent.Message.Draft
use vvagent.Message.Draft.{
  Draft, fields, field, digest_fields, be_bytes, max_text_bytes, max_refs,
  max_idempotency_key_bytes,
}
use vvagent.Message.Bounds.{AllWellFormed, SubjectFits, LifetimeFits, KindFits, Draft-validate_iff}
use vvagent.Message.Digest.{Fit, digest_fields_injective}

abbrev slash_first : Text → Bool
slash_first [] = false
slash_first (c ∷ s) = true

abbrev no_json : List Ref → Option Text
no_json rs = none

abbrev id : ℕ → Opaque
id n = record { chars = n ∷ [] }

abbrev a_file : Ref
a_file = file (b'/' ∷ b'x' ∷ []) none none none

abbrev a_draft : Draft
a_draft = record {
  to = id b'1';
  kind = request;
  reply_to = none;
  outcome = none;
  subject = none;
  text = b'h' ∷ b'i' ∷ [];
  refs = a_file ∷ [];
  idempotency_key = b'k' ∷ [];
  expires_in_ms = some (pos 1000);
}

Draft-validate_iff_example : (Draft.validate slash_first a_draft ≡ ok tt) ↔ (
    (len a_draft.text ≤ max_text_bytes)
    × (SubjectFits a_draft.subject
        × ((length a_draft.refs ≤ max_refs)
            × (AllWellFormed slash_first a_draft.refs
                × (((a_draft.idempotency_key ≢ [])
                      × (len a_draft.idempotency_key ≤ max_idempotency_key_bytes))
                    × (LifetimeFits a_draft.expires_in_ms
                        × KindFits a_draft.kind a_draft.reply_to a_draft.outcome))))))
Draft-validate_iff_example = Draft-validate_iff slash_first a_draft

a_draft-Fit : Fit (digest_fields no_json a_draft)
unfolding digest_fields Opaque.as_str Kind.as_str Outcome.as_str bytes utf8 codes
a_draft-Fit = (
  omega arith,
  (omega arith, (omega arith, (omega arith, (omega arith, (omega arith, (omega arith, tt)))))),
)

digest_fields_injective_example :
    (bytes (Opaque.as_str a_draft.to) ≡ bytes (Opaque.as_str a_draft.to))
    × (a_draft.kind ≡ a_draft.kind)
    × (bytes (unwrap_or (Option.map Opaque.as_str a_draft.reply_to) [])
        ≡ bytes (unwrap_or (Option.map Opaque.as_str a_draft.reply_to) []))
    × (a_draft.outcome ≡ a_draft.outcome)
    × (bytes (unwrap_or a_draft.subject []) ≡ bytes (unwrap_or a_draft.subject []))
    × (bytes a_draft.text ≡ bytes a_draft.text)
    × (bytes (unwrap_or (no_json a_draft.refs) []) ≡ bytes (unwrap_or (no_json a_draft.refs) []))
digest_fields_injective_example =
    digest_fields_injective no_json a_draft a_draft a_draft-Fit a_draft-Fit refl
