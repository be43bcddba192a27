-- ===== src/Message/Kind.antt =====
-- agent-mesh-core/src/lib.rs: `Kind`, what a message is.
use vvagent.Base.{
  ◌≡◌, refl, ◌↔◌, Bool, true, false, ◌++◌, arith, Text, codes, text_eq, text_eq→≡, if◌then◌else◌,
}
use vvagent.Error.{Result, ok, err, invalid}

pub data Kind : Type 0 where
  request response notice : Kind

unfoldable pub as_str : Kind → Text
as_str request = codes "request"
as_str response = codes "response"
as_str notice = codes "notice"

unfoldable pub parse : Text → Result Kind
parse value =
    if text_eq value (codes "request")
    then ok request
    else if text_eq value (codes "response")
    then ok response
    else if text_eq value (codes "notice")
    then ok notice
    else err (invalid (codes "unknown message kind `" ++ (value ++ codes "`")))

parse_sound : (s : Text) (k : Kind) → parse s ≡ ok k → s ≡ as_str k
unfolding parse as_str
parse_sound s k h = ground (
  arith,
  text_eq→≡ s (codes "request"),
  text_eq→≡ s (codes "response"),
  text_eq→≡ s (codes "notice"),
)

parse-as_str : (k : Kind) → parse (as_str k) ≡ ok k
unfolding parse as_str text_eq codes
parse-as_str request = refl
parse-as_str _ = refl

-- A text is read as a value exactly when it is that value's spelling.
pub parse_iff : (s : Text) (k : Kind) → (parse s ≡ ok k) ↔ (s ≡ as_str k)
parse_iff s k = (parse_sound s k, λ e. rw e (parse-as_str k))

-- Responses may reach into the reserve above the mailbox ceiling.
abbrev pub may_use_reserve : Kind → Bool
may_use_reserve response = true
may_use_reserve request = false
may_use_reserve notice = false
