-- ===== src/Message/Outcome.antt =====
-- agent-mesh-core/src/lib.rs: `Outcome`, the terminal outcome of a request.
use vvagent.Base.{◌≡◌, refl, ◌↔◌, ◌++◌, arith, Text, codes, text_eq, text_eq→≡, if◌then◌else◌}
use vvagent.Error.{Result, ok, err, invalid}

pub data Outcome : Type 0 where
  completed answered refused failed cancelled : Outcome

unfoldable pub as_str : Outcome → Text
as_str completed = codes "completed"
as_str answered = codes "answered"
as_str refused = codes "refused"
as_str failed = codes "failed"
as_str cancelled = codes "cancelled"

unfoldable pub parse : Text → Result Outcome
parse value =
    if text_eq value (codes "completed")
    then ok completed
    else if text_eq value (codes "answered")
    then ok answered
    else if text_eq value (codes "refused")
    then ok refused
    else if text_eq value (codes "failed")
    then ok failed
    else if text_eq value (codes "cancelled")
    then ok cancelled
    else err (invalid (codes "unknown outcome `" ++ (value ++ codes "`")))

parse_sound : (s : Text) (k : Outcome) → parse s ≡ ok k → s ≡ as_str k
unfolding parse as_str
parse_sound s k h = ground (
  arith,
  text_eq→≡ s (codes "completed"),
  text_eq→≡ s (codes "answered"),
  text_eq→≡ s (codes "refused"),
  text_eq→≡ s (codes "failed"),
  text_eq→≡ s (codes "cancelled"),
)

parse-as_str : (k : Outcome) → parse (as_str k) ≡ ok k
unfolding parse as_str text_eq codes
parse-as_str completed = refl
parse-as_str _ = refl

-- A text is read as a value exactly when it is that value's spelling.
pub parse_iff : (s : Text) (k : Outcome) → (parse s ≡ ok k) ↔ (s ≡ as_str k)
parse_iff s k = (parse_sound s k, λ e. rw e (parse-as_str k))
