-- ===== src/Base/Utf8.antt =====
-- Rust's `str` as its Unicode scalar values, with its UTF-8 bytes.
use Prim.Native.Nat.{ℕ, ◌+◌, ◌/◌, ◌%◌}
use Prim.Native.Char.{code}
use Prim.Native.String.{String}
use mathlib.Core.Path.{◌≡◌, refl, sym, ap, ◌∙◌}
use mathlib.Core.Bool.{Bool, true, false, ◌&&◌, ◌||◌}
use mathlib.Core.List.{List, [], ◌∷◌, ◌++◌, append_assoc}
use native.Mathlib.Omega.{arith}
use vvagent.Base.Tests.{ltb, leb, ◌==◌, if◌then◌else◌}
use vvagent.Base.Lists.{length, length-append, all}

abbrev pub Text : Type 0
Text = List ℕ

-- The scalar values of a literal.
unfoldable pub codes : String → Text
codes String.[] = []
codes (String.◌∷◌ c s) = code c ∷ codes s

unfoldable pub utf8 : ℕ → List ℕ
utf8 c =
    if ltb c 0x80
    then c ∷ []
    else if ltb c 0x800
    then (0xc0 + c / 64) ∷ (0x80 + c % 64) ∷ []
    else if ltb c 0x10000
    then (0xe0 + c / 4096) ∷ (0x80 + c / 64 % 64) ∷ (0x80 + c % 64) ∷ []
    else (0xf0 + c / 262144) ∷ (0x80 + c / 4096 % 64) ∷ (0x80 + c / 64 % 64) ∷ (0x80 + c % 64) ∷ []

-- `str::bytes` and `str::as_bytes`
unfoldable pub bytes : Text → List ℕ
bytes [] = []
bytes (c ∷ s) = utf8 c ++ bytes s

-- `str::len`, in bytes
unfoldable pub len : Text → ℕ
unfolding bytes
len s = length (bytes s)

unfoldable pub text_eq : Text → Text → Bool
text_eq [] [] = true
text_eq (c ∷ s) (d ∷ t) = (c == d) && text_eq s t
text_eq _ _ = false

pub text_eq→≡ : (s t : Text) → text_eq s t ≡ true → s ≡ t
unfolding text_eq
text_eq→≡ [] [] h = refl
text_eq→≡ [] (d ∷ t) h = ground arith
text_eq→≡ (c ∷ s) [] h = ground arith
text_eq→≡ (c ∷ s) (d ∷ t) h = ground (arith, text_eq→≡ s t)

pub text_eq_refl : (s : Text) → text_eq s s ≡ true
unfolding text_eq
text_eq_refl [] = refl
text_eq_refl (c ∷ s) = ground (arith, text_eq_refl s)

pub bytes_ascii : (s : Text) → all (λ c. ltb c 0x80) s ≡ true → bytes s ≡ s
unfolding bytes utf8
bytes_ascii [] h = refl
bytes_ascii (c ∷ s) h = ground (arith, bytes_ascii s)

pub bytes-append : (s t : Text) → bytes (s ++ t) ≡ bytes s ++ bytes t
unfolding bytes
bytes-append [] t = refl
bytes-append (c ∷ s) t =
    ap (◌++◌ (utf8 c)) (bytes-append s t) ∙ sym (append_assoc (utf8 c) (bytes s) (bytes t))

pub len-append : (s t : Text) → len (s ++ t) ≡ len s + len t
unfolding len
len-append s t = ap length (bytes-append s t) ∙ length-append (bytes s) (bytes t)

unfoldable pub is_ascii_digit : ℕ → Bool
is_ascii_digit c = leb b'0' c && leb c b'9'

unfoldable pub is_ascii_lowercase : ℕ → Bool
is_ascii_lowercase c = leb b'a' c && leb c b'z'

unfoldable pub is_ascii_uppercase : ℕ → Bool
is_ascii_uppercase c = leb b'A' c && leb c b'Z'

unfoldable pub is_ascii_alphabetic : ℕ → Bool
unfolding is_ascii_lowercase is_ascii_uppercase
is_ascii_alphabetic c = is_ascii_lowercase c || is_ascii_uppercase c

unfoldable pub is_ascii_hexdigit : ℕ → Bool
unfolding is_ascii_digit
is_ascii_hexdigit c = is_ascii_digit c || (leb b'a' c && leb c b'f') || (leb b'A' c && leb c b'F')

-- `char::is_control`: the general category Cc
unfoldable pub is_control : ℕ → Bool
is_control c = ltb c 0x20 || (leb 0x7f c && leb c 0x9f)
