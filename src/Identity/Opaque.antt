-- ===== src/Identity/Opaque.antt =====
-- agent-mesh-core/src/lib.rs: `Opaque`, a 128-bit identifier in lowercase hex. The random bytes of
-- `Opaque::generate` come from the operating system and are an argument here.
use vvagent.Base.{
  ℕ, ◌+◌, ◌-◌, ◌/◌, ◌%◌, ◌<◌, ◌*◌, ◌≡◌, refl, Bool, true, ◌&&◌, not, List, [], ◌∷◌, arith, Text,
  ltb, ◌==◌, if◌then◌else◌, all, length, codes, bytes, bytes_ascii, len, text_eq, text_eq→≡,
  text_eq_refl, is_ascii_hexdigit, is_ascii_uppercase, is_ascii_digit, ◌≢◌, false, inl, inr,
  Bool-cases,
}
use vvagent.Error.{Result, ok, err, invalid}

pub record Opaque : Type 0 where
  pub chars : Text

unfoldable pub hex_char : ℕ → Bool
hex_char b = is_ascii_hexdigit b && not (is_ascii_uppercase b)

unfoldable pub parse : Text → Result Opaque
unfolding hex_char
parse value =
    if (len value == 32) && all hex_char (bytes value)
    then ok (record { chars = value })
    else err (invalid (codes "an identifier is exactly 32 lowercase hex characters"))

unfoldable pub as_str : Opaque → Text
as_str id = id.chars

-- The derived `==`.
unfoldable pub opaque_eq : Opaque → Opaque → Bool
opaque_eq a b = text_eq a.chars b.chars

unfoldable pub hex_digit : ℕ → ℕ
hex_digit n = if ltb n 10 then b'0' + n else b'a' + (n - 10)

-- `{byte:02x}` of each byte
unfoldable pub hex : List ℕ → Text
unfolding hex_digit
hex [] = []
hex (b ∷ bs) = hex_digit (b / 16) ∷ hex_digit (b % 16) ∷ hex bs

unfoldable pub generate : List ℕ → Opaque
generate entropy = record { chars = hex entropy }

abbrev pub Bytes : List ℕ → Type 0
Bytes [] = Unit {0}
Bytes (b ∷ bs) = (b < 256) × Bytes bs

pub opaque_eq→≡ : (a b : Opaque) → opaque_eq a b ≡ true → a ≡ b
unfolding opaque_eq
opaque_eq→≡ a b h = λ i. record { chars = text_eq→≡ a.chars b.chars h i }

pub opaque_eq_refl : (a : Opaque) → opaque_eq a a ≡ true
unfolding opaque_eq
opaque_eq_refl a = text_eq_refl a.chars

pub ne→opaque_eq : (a b : Opaque) → a ≢ b → opaque_eq a b ≡ false
ne→opaque_eq a b h = elim (Bool-cases (opaque_eq a b)) [
  | inl e ↦ absurd (h (opaque_eq→≡ a b e))
  | inr e ↦ e
]

hex_digit-hex_char :
    (n : ℕ) → n < 16 → (hex_char (hex_digit n) ≡ true) × (ltb (hex_digit n) 0x80 ≡ true)
unfolding hex_char hex_digit is_ascii_hexdigit is_ascii_uppercase is_ascii_digit
hex_digit-hex_char n h = ground arith

hex-chars :
    (bs : List ℕ)
    → Bytes bs
    → (all hex_char (hex bs) ≡ true) × (all (λ c. ltb c 0x80) (hex bs) ≡ true)
unfolding hex
hex-chars [] h = (refl, refl)
hex-chars (b ∷ bs) h =
    ground (arith, hex_digit-hex_char (b / 16), hex_digit-hex_char (b % 16), hex-chars bs h.1)

length-hex : (bs : List ℕ) → length (hex bs) ≡ 2 * length bs
unfolding hex
length-hex [] = omega arith
length-hex (b ∷ bs) = omega (arith, length-hex bs)

-- A minted identifier, of 16 random bytes, is one that `Opaque::parse` accepts unchanged.
pub parse-generate :
    (entropy : List ℕ)
    → Bytes entropy
    → length entropy ≡ 16
    → parse (as_str (generate entropy)) ≡ ok (generate entropy)
unfolding parse generate as_str len
parse-generate entropy h n =
    let (hexes, ascii) = hex-chars entropy h in
    rw (bytes_ascii (hex entropy) ascii) (ground (arith, length-hex entropy))

hex_digit_injective : (a b : ℕ) → a < 16 → b < 16 → hex_digit a ≡ hex_digit b → a ≡ b
unfolding hex_digit
hex_digit_injective a b h k e = ground arith

-- Different random bytes give different identifiers.
pub hex_injective : (xs ys : List ℕ) → Bytes xs → Bytes ys → hex xs ≡ hex ys → xs ≡ ys
unfolding hex
hex_injective [] [] h k e = refl
hex_injective [] (y ∷ ys) h k e = cc
hex_injective (x ∷ xs) [] h k e = cc
hex_injective (x ∷ xs) (y ∷ ys) h k e =
    let high = hex_digit_injective (x / 16) (y / 16) (omega arith) (omega arith) (ground arith) in
    let low = hex_digit_injective (x % 16) (y % 16) (omega arith) (omega arith) (ground arith) in
    let same : x ≡ y = omega arith in cc (same, hex_injective xs ys h.1 k.1 (ground arith))

-- What `Opaque::parse` accepts it keeps as it is.
pub parse_sound :
    (s : Text) (id : Opaque)
    → parse s ≡ ok id
    → (as_str id ≡ s) × (len s ≡ 32) × (all hex_char (bytes s) ≡ true)
unfolding parse as_str
parse_sound s id h = ground arith
