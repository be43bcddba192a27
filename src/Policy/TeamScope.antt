-- ===== src/Policy/TeamScope.antt =====
-- agent-mesh-core/src/lib.rs: `TeamScope`, how far the team grant reaches.
use vvagent.Base.{◌≡◌, refl, ◌↔◌, ◌++◌, arith, Text, codes, text_eq, text_eq→≡, if◌then◌else◌}
use vvagent.Error.{Result, ok, err, invalid}

pub data TeamScope : Type 0 where
  off runtime_instance space : TeamScope

unfoldable pub as_str : TeamScope → Text
as_str off = codes "off"
as_str runtime_instance = codes "runtime_instance"
as_str space = codes "space"

unfoldable pub parse : Text → Result TeamScope
parse value =
    if text_eq value (codes "off")
    then ok off
    else if text_eq value (codes "runtime_instance")
    then ok runtime_instance
    else if text_eq value (codes "space")
    then ok space
    else err (
        invalid (
          codes "unknown team scope `" ++ (value ++ codes "`; use off, runtime_instance or space")))

parse_sound : (s : Text) (k : TeamScope) → parse s ≡ ok k → s ≡ as_str k
unfolding parse as_str
parse_sound s k h = ground (
  arith,
  text_eq→≡ s (codes "off"),
  text_eq→≡ s (codes "runtime_instance"),
  text_eq→≡ s (codes "space"),
)

parse-as_str : (k : TeamScope) → parse (as_str k) ≡ ok k
unfolding parse as_str text_eq codes
parse-as_str off = refl
parse-as_str _ = refl

-- A text is read as a value exactly when it is that value's spelling.
pub parse_iff : (s : Text) (k : TeamScope) → (parse s ≡ ok k) ↔ (s ≡ as_str k)
parse_iff s k = (parse_sound s k, λ e. rw e (parse-as_str k))
