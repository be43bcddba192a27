-- ===== src/Identity/AgentState.antt =====
-- agent-mesh-core/src/lib.rs: `AgentState`.
use vvagent.Base.{◌≡◌, refl, ◌↔◌, ◌++◌, arith, Text, codes, text_eq, text_eq→≡, if◌then◌else◌}
use vvagent.Error.{Result, ok, err, invalid}

pub data AgentState : Type 0 where
  unknown idle working blocked offline : AgentState

unfoldable pub as_str : AgentState → Text
as_str unknown = codes "unknown"
as_str idle = codes "idle"
as_str working = codes "working"
as_str blocked = codes "blocked"
as_str offline = codes "offline"

unfoldable pub parse : Text → Result AgentState
parse value =
    if text_eq value (codes "unknown")
    then ok unknown
    else if text_eq value (codes "idle")
    then ok idle
    else if text_eq value (codes "working")
    then ok working
    else if text_eq value (codes "blocked")
    then ok blocked
    else if text_eq value (codes "offline")
    then ok offline
    else err (invalid (codes "unknown agent state `" ++ (value ++ codes "`")))

parse_sound : (s : Text) (k : AgentState) → parse s ≡ ok k → s ≡ as_str k
unfolding parse as_str
parse_sound s k h = ground (
  arith,
  text_eq→≡ s (codes "unknown"),
  text_eq→≡ s (codes "idle"),
  text_eq→≡ s (codes "working"),
  text_eq→≡ s (codes "blocked"),
  text_eq→≡ s (codes "offline"),
)

parse-as_str : (k : AgentState) → parse (as_str k) ≡ ok k
unfolding parse as_str text_eq codes
parse-as_str unknown = refl
parse-as_str _ = refl

-- A text is read as a value exactly when it is that value's spelling.
pub parse_iff : (s : Text) (k : AgentState) → (parse s ≡ ok k) ↔ (s ≡ as_str k)
parse_iff s k = (parse_sound s k, λ e. rw e (parse-as_str k))
