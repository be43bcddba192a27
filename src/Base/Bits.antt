-- ===== src/Base/Bits.antt =====
-- Comparing byte strings without an early return, by `|` and `^` on bytes.
use Prim.Native.Nat.{
  ℕ, zero, suc, ◌/◌, ◌%◌, ◌≤◌, max, bit_or, bit_xor, bit_or-bitwise, bit_xor-bitwise, digits,
  differ,
}
use mathlib.Core.Path.{◌≡◌, refl, sym, ap, ap₂, ◌∙◌}
use mathlib.Core.Logic.{◌↔◌, inl, inr}
use mathlib.Core.Bool.{Bool, true, false}
use mathlib.Core.List.{List, [], ◌∷◌}
use native.Mathlib.Omega.{arith}
use vvagent.Base.Tests.{◌==◌, if◌then◌else◌, ==_iff, ==_refl, Bool-cases}
use vvagent.Base.Lists.{length}

-- `a.iter().zip(b).fold(0u8, |acc, (x, y)| acc | (x ^ y))`
unfoldable pub differences : ℕ → List ℕ → List ℕ → ℕ
differences acc [] b = acc
differences acc (x ∷ a) [] = acc
differences acc (x ∷ a) (y ∷ b) = differences (bit_or acc (bit_xor x y)) a b

-- `constant_time_eq`
unfoldable pub constant_time_eq : List ℕ → List ℕ → Bool
unfolding differences
constant_time_eq a b = if length a == length b then differences 0 a b == 0 else false

digits-max : (n a b : ℕ) → a ≤ n → digits (λ b. b) max n a b ≡ 0 → (a ≡ 0) × (b ≡ 0)
digits-max zero a b h e = (omega arith, e)
digits-max (suc n) zero b h e = (refl, e)
digits-max (suc n) (suc a) b h e =
    let (half, rest) = digits-max n (suc a / 2) (b / 2) (omega arith) (omega arith) in
    (omega arith, omega arith)

bit_or-zero : (a b : ℕ) → bit_or a b ≡ 0 → (a ≡ 0) × (b ≡ 0)
bit_or-zero a b e = digits-max a a b (omega arith) (sym (λ i. bit_or-bitwise a b i) ∙ e)

differ-zero : (x y : ℕ) → differ x y ≡ 0 → x ≡ y
differ-zero zero y e = sym e
differ-zero (suc x) zero e = e
differ-zero (suc x) (suc y) e = ap suc (differ-zero x y e)

differ_self : (x : ℕ) → differ x x ≡ 0
differ_self zero = refl
differ_self (suc x) = differ_self x

digits-differ : (n a b : ℕ) → a ≤ n → digits (λ b. b) differ n a b ≡ 0 → a ≡ b
digits-differ zero a b h e = omega arith
digits-differ (suc n) zero b h e = sym e
digits-differ (suc n) (suc a) b h e =
    let half = digits-differ n (suc a / 2) (b / 2) (omega arith) (omega arith) in
    let last = differ-zero (suc a % 2) (b % 2) (omega arith) in omega arith

digits_self : (n a : ℕ) → a ≤ n → digits (λ b. b) differ n a a ≡ 0
digits_self zero a h = omega arith
digits_self (suc n) zero h = refl
digits_self (suc n) (suc a) h =
    omega (arith, digits_self n (suc a / 2) (omega arith), differ_self (suc a % 2))

bit_xor-zero : (a b : ℕ) → bit_xor a b ≡ 0 → a ≡ b
bit_xor-zero a b e = digits-differ a a b (omega arith) (sym (λ i. bit_xor-bitwise a b i) ∙ e)

bit_xor_self : (a : ℕ) → bit_xor a a ≡ 0
bit_xor_self a = (λ i. bit_xor-bitwise a a i) ∙ digits_self a a (omega arith)

differences-zero :
    (acc : ℕ) (a b : List ℕ) → length a ≡ length b → differences acc a b ≡ 0 → (acc ≡ 0) × (a ≡ b)
unfolding differences
differences-zero acc [] [] l e = (e, refl)
differences-zero acc [] (y ∷ b) l e = absurd (omega arith)
differences-zero acc (x ∷ a) [] l e = absurd (omega arith)
differences-zero acc (x ∷ a) (y ∷ b) l e =
    let (joined, rest) = differences-zero (bit_or acc (bit_xor x y)) a b (omega arith) e in
    let (before, same) = bit_or-zero acc (bit_xor x y) joined in
    (before, ap₂ ◌∷◌ (bit_xor-zero x y same) rest)

differences_self : (a : List ℕ) → differences 0 a a ≡ 0
unfolding differences
differences_self [] = refl
differences_self (x ∷ a) = rw (bit_xor_self x) (differences_self a)

-- Two byte strings compare as equal exactly when they are.
pub constant_time_eq_iff : (a b : List ℕ) → (constant_time_eq a b ≡ true) ↔ (a ≡ b)
unfolding constant_time_eq
constant_time_eq_iff a b = (forth, back)
  where
    forth : constant_time_eq a b ≡ true → a ≡ b
    forth h = elim (Bool-cases (length a == length b)) [
      | inl e ↦
          (differences-zero 0 a b ((==_iff (length a) (length b)).0 e)
            ((==_iff (differences 0 a b) 0).0 (rw e at h))).1
      | inr e ↦ cc (rw e at h)
    ]

    back : a ≡ b → constant_time_eq a b ≡ true
    back q = rw q (rw (==_refl (length b)) (rw (differences_self b) refl))
