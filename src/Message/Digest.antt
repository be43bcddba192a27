-- ===== src/Message/Digest.antt =====
-- The preimage of `Draft::digest`: content cannot be shifted between its fields.
use vvagent.Base.{
  ℕ, zero, suc, ◌+◌, ◌*◌, ◌/◌, ◌%◌, ◌^◌, ◌<◌, ◌≡◌, refl, sym, ap, ap₂, ◌∙◌, List, [], ◌∷◌, ◌++◌,
  Option, none, some, arith, Text, codes, bytes, utf8, length, append_assoc, ◌==◌, if◌then◌else◌,
  unwrap_or,
}
use mathlib.Core.Option
use native.Mathlib.Nat.{pow-suc, div-add-mod, div-div-eq-div-mul}
use vvagent.Identity.Opaque
use vvagent.Identity.Opaque.{Opaque}
use vvagent.Message.Kind
use vvagent.Message.Kind.{Kind, request, response, notice}
use vvagent.Message.Outcome
use vvagent.Message.Outcome.{Outcome, completed, answered, refused, failed, cancelled}
use vvagent.Message.Ref.{Ref}
use vvagent.Message.Draft.{Draft, be_bytes, field, fields, digest_fields}

mod_split : (n p : ℕ) → n % (p * 256) ≡ n / p % 256 * p + n % p
mod_split n p =
    let whole : p * 256 * (n / p / 256) + n % (p * 256) ≡ n =
      rw (div-div-eq-div-mul n p 256) (div-add-mod n (p * 256)) in
    let high : p * (256 * (n / p / 256) + n / p % 256) ≡ p * (n / p) =
      ap (λ (t : ℕ). p * t) (div-add-mod (n / p) 256) in
    omega (arith, whole, high, div-add-mod n p)

be_step : (n k : ℕ) → n % 256 ^ suc k ≡ n / 256 ^ k % 256 * 256 ^ k + n % 256 ^ k
be_step n k = rw (pow-suc 256 k) (mod_split n (256 ^ k))

cons_inv {ℓ} : {A : Type ℓ} {x y : A} {xs ys : List A} → x ∷ xs ≡ y ∷ ys → (x ≡ y) × (xs ≡ ys)
cons_inv h = (cc, cc)

be_injective : (k n m : ℕ) → be_bytes k n ≡ be_bytes k m → n % 256 ^ k ≡ m % 256 ^ k
unfolding be_bytes
be_injective zero n m h = omega arith
be_injective (suc k) n m h =
    let (top, rest) = cons_inv h in
    be_step n k
    ∙ ap₂ ◌+◌ (ap (λ (t : ℕ). t * 256 ^ k) top) (be_injective k n m rest)
    ∙ sym (be_step m k)

length-be_bytes : (k n : ℕ) → length (be_bytes k n) ≡ k
unfolding be_bytes
length-be_bytes zero n = refl
length-be_bytes (suc k) n = ap suc (length-be_bytes k n)

-- Two texts that agree and begin with parts of one length agree part by part.
append_injective {ℓ} :
    {A : Type ℓ} (xs ys : List A) {r s : List A}
    → length xs ≡ length ys
    → xs ++ r ≡ ys ++ s
    → (xs ≡ ys) × (r ≡ s)
append_injective [] [] n h = (refl, h)
append_injective [] (y ∷ ys) n h = absurd (omega arith)
append_injective (x ∷ xs) [] n h = absurd (omega arith)
append_injective (x ∷ xs) (y ∷ ys) n h =
    let (e, t) = cons_inv h in
    let (u, v) = append_injective xs ys (omega arith) t in (ap₂ ◌∷◌ e u, v)

field_injective :
    (xs ys r s : List ℕ)
    → length xs < 2 ^ 64
    → length ys < 2 ^ 64
    → field xs ++ r ≡ field ys ++ s
    → (xs ≡ ys) × (r ≡ s)
unfolding field
field_injective xs ys r s hx hy h =
    let regroup = append_assoc (be_bytes 8 (length xs % 2 ^ 64)) xs r in
    let regroup' = append_assoc (be_bytes 8 (length ys % 2 ^ 64)) ys s in
    let (prefix, rest) =
      append_injective (be_bytes 8 (length xs % 2 ^ 64)) (be_bytes 8 (length ys % 2 ^ 64))
        (length-be_bytes 8 _ ∙ sym (length-be_bytes 8 _)) (sym regroup ∙ h ∙ regroup') in
    let size = be_injective 8 (length xs % 2 ^ 64) (length ys % 2 ^ 64) prefix in
    append_injective xs ys (omega arith) rest

-- Every field is shorter than the eight bytes of its length can say.
abbrev pub Fit : List (List ℕ) → Type 0
Fit [] = Unit {0}
Fit (f ∷ fs) = (length f < 2 ^ 64) × Fit fs

-- Lists of as many fields have one framing only when they are the same fields.
pub fields_injective :
    (fs gs : List (List ℕ))
    → length fs ≡ length gs
    → Fit fs
    → Fit gs
    → fields fs ≡ fields gs
    → fs ≡ gs
unfolding fields
fields_injective [] [] n h k e = refl
fields_injective [] (g ∷ gs) n h k e = absurd (omega arith)
fields_injective (f ∷ fs) [] n h k e = absurd (omega arith)
fields_injective (f ∷ fs) (g ∷ gs) n h k e =
    let (head, rest) = field_injective f g (fields fs) (fields gs) h.0 k.0 e in
    ap₂ ◌∷◌ head (fields_injective fs gs (omega arith) h.1 k.1 rest)

kind_injective : (a b : Kind) → bytes (Kind.as_str a) ≡ bytes (Kind.as_str b) → a ≡ b
unfolding Kind.as_str codes bytes utf8
kind_injective request request h = refl
kind_injective request response h = ground arith
kind_injective request notice h = ground arith
kind_injective response request h = ground arith
kind_injective response response h = refl
kind_injective response notice h = ground arith
kind_injective notice request h = ground arith
kind_injective notice response h = ground arith
kind_injective notice notice h = refl

abbrev outcome_bytes : Option Outcome → List ℕ
outcome_bytes o = bytes (unwrap_or (Option.map Outcome.as_str o) [])

-- The third letter of an outcome's spelling tells it.
third : List ℕ → ℕ
third (a ∷ b ∷ c ∷ rest) = c
third _ = 0

recover : ℕ → Option Outcome
recover c =
    if c == b'm'
    then some completed
    else if c == b's'
    then some answered
    else if c == b'f'
    then some refused
    else if c == b'i'
    then some failed
    else if c == b'n'
    then some cancelled
    else none

recover-third : (o : Option Outcome) → recover (third (outcome_bytes o)) ≡ o
unfolding recover third Outcome.as_str codes bytes utf8
recover-third none = refl
recover-third (some completed) = refl
recover-third (some answered) = refl
recover-third (some refused) = refl
recover-third (some failed) = refl
recover-third (some cancelled) = refl

outcome_injective : (o q : Option Outcome) → outcome_bytes o ≡ outcome_bytes q → o ≡ q
outcome_injective o q h = sym (recover-third o) ∙ ap (λ t. recover (third t)) h ∙ recover-third q

-- What two drafts with one digest preimage agree on: the recipient, the kind, the request they
-- answer, the outcome, the subject, the text and the JSON of the references. A subject that is
-- absent and an empty one count as the same, and so do the other two absences.
pub digest_fields_injective :
    (refs_json : List Ref → Option Text) (d e : Draft)
    → Fit (digest_fields refs_json d)
    → Fit (digest_fields refs_json e)
    → fields (digest_fields refs_json d) ≡ fields (digest_fields refs_json e)
    → (bytes (Opaque.as_str d.to) ≡ bytes (Opaque.as_str e.to))
      × (d.kind ≡ e.kind)
      × (bytes (unwrap_or (Option.map Opaque.as_str d.reply_to) [])
          ≡ bytes (unwrap_or (Option.map Opaque.as_str e.reply_to) []))
      × (d.outcome ≡ e.outcome)
      × (bytes (unwrap_or d.subject []) ≡ bytes (unwrap_or e.subject []))
      × (bytes d.text ≡ bytes e.text)
      × (bytes (unwrap_or (refs_json d.refs) []) ≡ bytes (unwrap_or (refs_json e.refs) []))
unfolding digest_fields
digest_fields_injective refs_json d e hd he h =
    let (to, r1) = cons_inv (fields_injective _ _ refl hd he h) in
    let (kind, r2) = cons_inv r1 in
    let (reply, r3) = cons_inv r2 in
    let (outcome, r4) = cons_inv r3 in
    let (subject, r5) = cons_inv r4 in
    let (text, r6) = cons_inv r5 in
    let (refs, _) = cons_inv r6 in
    (
      to,
      kind_injective d.kind e.kind kind,
      reply,
      outcome_injective d.outcome e.outcome outcome,
      subject,
      text,
      refs,
    )
