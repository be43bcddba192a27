-- ===== src/Identity/RuntimeKind.antt =====
-- agent-mesh-core/src/lib.rs: `RuntimeKind`, the product that owns a pane.
use vvagent.Base.{
  ◌≡◌, refl, ◌↔◌, Bool, true, false, ◌++◌, arith, Text, codes, text_eq, text_eq→≡, if◌then◌else◌,
}
use vvagent.Error.{Result, ok, err, invalid}

pub data RuntimeKind : Type 0 where
  vvmux vivido vivida wrapper peer : RuntimeKind

unfoldable pub as_str : RuntimeKind → Text
as_str vvmux = codes "vvmux"
as_str vivido = codes "vivido"
as_str vivida = codes "vivida"
as_str wrapper = codes "wrapper"
as_str peer = codes "peer"

unfoldable pub parse : Text → Result RuntimeKind
parse value =
    if text_eq value (codes "vvmux")
    then ok vvmux
    else if text_eq value (codes "vivido")
    then ok vivido
    else if text_eq value (codes "vivida")
    then ok vivida
    else if text_eq value (codes "wrapper")
    then ok wrapper
    else if text_eq value (codes "peer")
    then ok peer
    else err (invalid (codes "unknown runtime `" ++ (value ++ codes "`")))

parse_sound : (s : Text) (k : RuntimeKind) → parse s ≡ ok k → s ≡ as_str k
unfolding parse as_str
parse_sound s k h = ground (
  arith,
  text_eq→≡ s (codes "vvmux"),
  text_eq→≡ s (codes "vivido"),
  text_eq→≡ s (codes "vivida"),
  text_eq→≡ s (codes "wrapper"),
  text_eq→≡ s (codes "peer"),
)

parse-as_str : (k : RuntimeKind) → parse (as_str k) ≡ ok k
unfolding parse as_str text_eq codes
parse-as_str vvmux = refl
parse-as_str _ = refl

-- A text is read as a value exactly when it is that value's spelling.
pub parse_iff : (s : Text) (k : RuntimeKind) → (parse s ≡ ok k) ↔ (s ≡ as_str k)
parse_iff s k = (parse_sound s k, λ e. rw e (parse-as_str k))

unfoldable pub kind_eq : RuntimeKind → RuntimeKind → Bool
kind_eq vvmux vvmux = true
kind_eq vivido vivido = true
kind_eq vivida vivida = true
kind_eq wrapper wrapper = true
kind_eq peer peer = true
kind_eq _ _ = false

pub kind_eq→≡ : (a b : RuntimeKind) → kind_eq a b ≡ true → a ≡ b
unfolding kind_eq
kind_eq→≡ a b h = ground arith

pub kind_eq_refl : (a : RuntimeKind) → kind_eq a a ≡ true
unfolding kind_eq
kind_eq_refl a = ground arith
