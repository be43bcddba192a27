-- ===== src/Message/State.antt =====
-- agent-mesh-core/src/lib.rs: `State`, the state a message occupies in the store.
use vvagent.Base.{
  ◌≡◌, refl, ◌↔◌, Bool, true, false, ◌++◌, arith, Text, codes, text_eq, text_eq→≡, if◌then◌else◌,
}
use vvagent.Error.{Result, ok, err, invalid}

pub data State : Type 0 where
  queued claimed delivered consumed cancellation_requested cancelled expired undeliverable : State

unfoldable pub as_str : State → Text
as_str queued = codes "queued"
as_str claimed = codes "claimed"
as_str delivered = codes "delivered"
as_str consumed = codes "consumed"
as_str cancellation_requested = codes "cancellation_requested"
as_str cancelled = codes "cancelled"
as_str expired = codes "expired"
as_str undeliverable = codes "undeliverable"

unfoldable pub parse : Text → Result State
parse value =
    if text_eq value (codes "queued")
    then ok queued
    else if text_eq value (codes "claimed")
    then ok claimed
    else if text_eq value (codes "delivered")
    then ok delivered
    else if text_eq value (codes "consumed")
    then ok consumed
    else if text_eq value (codes "cancellation_requested")
    then ok cancellation_requested
    else if text_eq value (codes "cancelled")
    then ok cancelled
    else if text_eq value (codes "expired")
    then ok expired
    else if text_eq value (codes "undeliverable")
    then ok undeliverable
    else err (invalid (codes "unknown state `" ++ (value ++ codes "`")))

parse_sound : (s : Text) (k : State) → parse s ≡ ok k → s ≡ as_str k
unfolding parse as_str
parse_sound s k h = ground (
  arith,
  text_eq→≡ s (codes "queued"),
  text_eq→≡ s (codes "claimed"),
  text_eq→≡ s (codes "delivered"),
  text_eq→≡ s (codes "consumed"),
  text_eq→≡ s (codes "cancellation_requested"),
  text_eq→≡ s (codes "cancelled"),
  text_eq→≡ s (codes "expired"),
  text_eq→≡ s (codes "undeliverable"),
)

parse-as_str : (k : State) → parse (as_str k) ≡ ok k
unfolding parse as_str text_eq codes
parse-as_str queued = refl
parse-as_str _ = refl

-- A text is read as a value exactly when it is that value's spelling.
pub parse_iff : (s : Text) (k : State) → (parse s ≡ ok k) ↔ (s ≡ as_str k)
parse_iff s k = (parse_sound s k, λ e. rw e (parse-as_str k))

-- Whether the message still occupies mailbox capacity.
abbrev pub is_pending : State → Bool
is_pending queued = true
is_pending claimed = true
is_pending delivered = true
is_pending cancellation_requested = true
is_pending _ = false
