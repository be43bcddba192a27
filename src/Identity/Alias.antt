-- ===== src/Identity/Alias.antt =====
-- agent-mesh-core/src/lib.rs: `Alias`, the name a person gives an endpoint.
use vvagent.Base.{
  ℕ, ◌≤◌, ◌≡◌, Bool, true, false, ◌&&◌, ◌||◌, not, List, [], ◌∷◌, arith, Text, leb, ◌==◌,
  if◌then◌else◌, all, is_empty, codes, bytes, len, text_eq, text_eq→≡, text_eq_refl,
  is_ascii_lowercase, is_ascii_digit,
}
use vvagent.Error.{Result, ok, err, invalid}

abbrev pub max_alias_bytes : ℕ
max_alias_bytes = 32

pub record Alias : Type 0 where
  pub chars : Text

unfoldable pub alias_byte : ℕ → Bool
alias_byte b = is_ascii_lowercase b || is_ascii_digit b || b == b'-' || b == b'_'

-- The first byte, and then the bytes that the iterator has left.
unfoldable pub alias_bytes : List ℕ → Bool
unfolding alias_byte
alias_bytes [] = false
alias_bytes (b ∷ bs) = is_ascii_lowercase b && all alias_byte bs

unfoldable pub parse : Text → Result Alias
unfolding alias_bytes
parse value =
    if not (is_empty value) && leb (len value) max_alias_bytes && alias_bytes (bytes value)
    then ok (record { chars = value })
    else err (
        invalid (
          codes
            "an alias starts with a lowercase letter and contains only lowercase letters, digits, '-' or '_' (1..=32 bytes)"))

unfoldable pub as_str : Alias → Text
as_str a = a.chars

unfoldable pub alias_eq : Alias → Alias → Bool
alias_eq a b = text_eq a.chars b.chars

pub alias_eq→≡ : (a b : Alias) → alias_eq a b ≡ true → a ≡ b
unfolding alias_eq
alias_eq→≡ a b h = λ i. record { chars = text_eq→≡ a.chars b.chars h i }

pub alias_eq_refl : (a : Alias) → alias_eq a a ≡ true
unfolding alias_eq
alias_eq_refl a = text_eq_refl a.chars

pub parse_sound :
    (s : Text) (a : Alias)
    → parse s ≡ ok a
    → (as_str a ≡ s) × (len s ≤ 32) × (alias_bytes (bytes s) ≡ true)
unfolding parse as_str
parse_sound s a h = ground arith
