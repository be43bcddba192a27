-- ===== src/Address/Decimal.antt =====
-- Rust's `{}` print of a `u32` and its `str::parse::<u32>`, as address.rs uses them.
use vvagent.Base.{
  ℕ, zero, suc, ◌+◌, ◌-◌, ◌*◌, ◌/◌, ◌%◌, ◌^◌, ◌≤◌, ◌<◌, ◌≡◌, ◌≢◌, refl, sym, ◌∙◌, inl, inr, true,
  [], ◌∷◌, ◌++◌, append_assoc, Option, none, some, arith, Text, ltb, if◌then◌else◌, all, all-append,
  append-nil, and-eq-true, length, length-append, is_ascii_digit, Bool-cases,
}
use native.Mathlib.Nat.{pow-suc}

-- One digit for each round; `decimal` gives a round more than the number has digits.
emit : ℕ → ℕ → Text
emit zero n = []
emit (suc fuel) n =
    let rest = emit fuel (n / 10) in
    if ltb n 10 then (b'0' + n) ∷ [] else rest ++ (b'0' + n % 10) ∷ []

unfoldable pub decimal : ℕ → Text
unfolding emit
decimal n = emit (suc n) n

-- The number that digits spell behind `n`, with no bound.
unfoldable pub value : ℕ → Text → ℕ
value n [] = n
value n (c ∷ s) = value (n * 10 + (c - b'0')) s

-- Of a text of digits: fails when the number does not fit.
unfoldable pub parse_u32 : Text → Option ℕ
unfolding value
parse_u32 s = if ltb (value 0 s) (2 ^ 32) then some (value 0 s) else none

emit_fuel : (f g n : ℕ) → n < f → n < g → emit f n ≡ emit g n
unfolding emit
emit_fuel zero g n h k = absurd (omega arith)
emit_fuel (suc f) zero n h k = absurd (omega arith)
emit_fuel (suc f) (suc g) n h k = ground (arith, emit_fuel f g (n / 10))

pub decimal_small : (n : ℕ) → n < 10 → decimal n ≡ (b'0' + n) ∷ []
unfolding decimal
decimal_small n h = ground arith

-- The last digit stands behind the print of the others.
pub decimal_step : (n d : ℕ) → 0 < n → d < 10 → decimal (n * 10 + d) ≡ decimal n ++ (b'0' + d) ∷ []
unfolding decimal
decimal_step n d h k = ground (arith, emit_fuel (n * 10 + d) (suc n) n)

pub value-append : (n : ℕ) (s t : Text) → value n (s ++ t) ≡ value (value n s) t
unfolding value
value-append n [] t = refl
value-append n (c ∷ s) t = value-append (n * 10 + (c - b'0')) s t

pow_ten : (k : ℕ) → 10 ^ suc (suc k) ≡ 10 * 10 ^ suc k
pow_ten k = omega (arith, pow-suc 10 (suc k))

abbrev pub Digits : Text → Type 0
Digits s = all is_ascii_digit s ≡ true

emit-Digits : (f n : ℕ) → Digits (emit f n)
unfolding emit is_ascii_digit
emit-Digits zero n = refl
emit-Digits (suc f) n = elim (Bool-cases (ltb n 10)) [
  | inl small ↦ rw small (ground arith)
  | inr big ↦
      rw big (all-append is_ascii_digit (emit f (n / 10)) _ (emit-Digits f (n / 10)) (ground arith))
]

pub decimal-Digits : (n : ℕ) → Digits (decimal n)
unfolding decimal
decimal-Digits n = emit-Digits (suc n) n

value-emit : (f n : ℕ) → n < f → value 0 (emit f n) ≡ n
unfolding emit value
value-emit zero n h = absurd (omega arith)
value-emit (suc f) n h =
    ground (arith, value-append 0 (emit f (n / 10)) ((b'0' + n % 10) ∷ []), value-emit f (n / 10))

pub value-decimal : (n : ℕ) → value 0 (decimal n) ≡ n
unfolding decimal
value-decimal n = value-emit (suc n) n (omega arith)

pub parse_u32-decimal : (n : ℕ) → n < 2 ^ 32 → parse_u32 (decimal n) ≡ some n
unfolding parse_u32
parse_u32-decimal n h = ground (arith, value-decimal n)

-- Of a positive number.
abbrev pub Canonical : Text → Type 0
Canonical [] = ⊥
Canonical (c ∷ s) = c ≢ b'0'

Canonical-append : (s t : Text) → Canonical s → Canonical (s ++ t)
Canonical-append [] t h = absurd h
Canonical-append (c ∷ s) t h = h

emit-Canonical : (f n : ℕ) → n < f → 0 < n → Canonical (emit f n)
unfolding emit
emit-Canonical zero n h k = absurd (omega arith)
emit-Canonical (suc f) n h k = elim (Bool-cases (ltb n 10)) [
  | inl small ↦ rw small (omega arith)
  | inr big ↦ rw big (
      Canonical-append (emit f (n / 10)) _
        (emit-Canonical f (n / 10) (ground arith) (ground arith)))
]

pub decimal-Canonical : (n : ℕ) → 0 < n → Canonical (decimal n)
unfolding decimal
decimal-Canonical n h = emit-Canonical (suc n) n (omega arith) h

length-emit : (k f n : ℕ) → n < 10 ^ k → 0 < k → length (emit f n) ≤ k
unfolding emit
length-emit zero f n h p = absurd (omega arith)
length-emit (suc k) zero n h p = omega arith
length-emit (suc zero) (suc f) n h p = ground arith
length-emit (suc (suc k)) (suc f) n h p = elim (Bool-cases (ltb n 10)) [
  | inl small ↦ rw small (omega arith)
  | inr big ↦
      rw (big, length-append (emit f (n / 10)) ((b'0' + n % 10) ∷ []))
        (omega (arith, length-emit (suc k) f (n / 10) (omega (arith, pow_ten k)) (omega arith)))
]

pub length-decimal : (n : ℕ) → n < 2 ^ 32 → length (decimal n) ≤ 10
unfolding decimal
length-decimal n h = length-emit 10 (suc n) n (omega arith) (omega arith)

-- Digits behind the print of a positive number spell the print of the longer number.
pub decimal-value : (n : ℕ) (s : Text) → 0 < n → Digits s → decimal (value n s) ≡ decimal n ++ s
unfolding value is_ascii_digit
decimal-value n [] h d = sym (append-nil (decimal n))
decimal-value n (c ∷ s) h d =
    let (dc, ds) = and-eq-true (is_ascii_digit c) (all is_ascii_digit s) d in
    let low : b'0' ≤ c = ground arith in
    let high : c ≤ b'9' = ground arith in
    let back : b'0' + (c - b'0') ≡ c = omega arith in
    decimal-value (n * 10 + (c - b'0')) s (omega arith) ds
    ∙ (rw (decimal_step n (c - b'0') h (omega arith), append_assoc, back))

-- A text of digits with no leading zero is the print of its value.
pub decimal-value-Canonical : (s : Text) → Canonical s → Digits s → decimal (value 0 s) ≡ s
unfolding value is_ascii_digit
decimal-value-Canonical [] h d = absurd h
decimal-value-Canonical (c ∷ s) h d =
    let (dc, ds) = and-eq-true (is_ascii_digit c) (all is_ascii_digit s) d in
    let low : b'0' ≤ c = ground arith in
    let high : c ≤ b'9' = ground arith in
    let back : b'0' + (c - b'0') ≡ c = omega arith in
    let start : 0 * 10 + (c - b'0') ≡ c - b'0' = omega arith in
    rw start (
      decimal-value (c - b'0') s (omega arith) ds
      ∙ rw (decimal_small (c - b'0') (omega arith), back))
