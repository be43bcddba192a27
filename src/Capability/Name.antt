-- ===== src/Capability/Name.antt =====
-- agent-mesh-core/src/capability.rs: `Capability`, one thing that a provider can do.
use vvagent.Base.{
  ◌≡◌, refl, ◌↔◌, Bool, true, false, ◌++◌, arith, Text, codes, text_eq, text_eq→≡, if◌then◌else◌,
}
use vvagent.Error.{Result, ok, err, invalid}

pub data Capability : Type 0 where
  structured_pull before_user_turn after_turn_continue capture_final external_turn_start
        external_interrupt pty_pointer_nudge :
      Capability

unfoldable pub as_str : Capability → Text
as_str structured_pull = codes "structured_pull"
as_str before_user_turn = codes "before_user_turn"
as_str after_turn_continue = codes "after_turn_continue"
as_str capture_final = codes "capture_final"
as_str external_turn_start = codes "external_turn_start"
as_str external_interrupt = codes "external_interrupt"
as_str pty_pointer_nudge = codes "pty_pointer_nudge"

unfoldable pub parse : Text → Result Capability
parse value =
    if text_eq value (codes "structured_pull")
    then ok structured_pull
    else if text_eq value (codes "before_user_turn")
    then ok before_user_turn
    else if text_eq value (codes "after_turn_continue")
    then ok after_turn_continue
    else if text_eq value (codes "capture_final")
    then ok capture_final
    else if text_eq value (codes "external_turn_start")
    then ok external_turn_start
    else if text_eq value (codes "external_interrupt")
    then ok external_interrupt
    else if text_eq value (codes "pty_pointer_nudge")
    then ok pty_pointer_nudge
    else err (invalid (codes "unknown capability `" ++ (value ++ codes "`")))

parse_sound : (s : Text) (k : Capability) → parse s ≡ ok k → s ≡ as_str k
unfolding parse as_str
parse_sound s k h = ground (
  arith,
  text_eq→≡ s (codes "structured_pull"),
  text_eq→≡ s (codes "before_user_turn"),
  text_eq→≡ s (codes "after_turn_continue"),
  text_eq→≡ s (codes "capture_final"),
  text_eq→≡ s (codes "external_turn_start"),
  text_eq→≡ s (codes "external_interrupt"),
  text_eq→≡ s (codes "pty_pointer_nudge"),
)

parse-as_str : (k : Capability) → parse (as_str k) ≡ ok k
unfolding parse as_str text_eq codes
parse-as_str structured_pull = refl
parse-as_str _ = refl

-- A text is read as a value exactly when it is that value's spelling.
pub parse_iff : (s : Text) (k : Capability) → (parse s ≡ ok k) ↔ (s ≡ as_str k)
parse_iff s k = (parse_sound s k, λ e. rw e (parse-as_str k))

unfoldable pub capability_eq : Capability → Capability → Bool
capability_eq structured_pull structured_pull = true
capability_eq before_user_turn before_user_turn = true
capability_eq after_turn_continue after_turn_continue = true
capability_eq capture_final capture_final = true
capability_eq external_turn_start external_turn_start = true
capability_eq external_interrupt external_interrupt = true
capability_eq pty_pointer_nudge pty_pointer_nudge = true
capability_eq _ _ = false

pub capability_eq→≡ : (a b : Capability) → capability_eq a b ≡ true → a ≡ b
unfolding capability_eq
capability_eq→≡ a b h = ground arith

pub capability_eq_refl : (a : Capability) → capability_eq a a ≡ true
unfolding capability_eq
capability_eq_refl a = ground arith
