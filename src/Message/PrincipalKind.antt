-- ===== src/Message/PrincipalKind.antt =====
-- agent-mesh-core/src/lib.rs: `PrincipalKind`, who sent a message.
use vvagent.Base.{
  ◌≡◌, refl, ◌↔◌, Bool, true, false, ◌++◌, arith, Text, codes, text_eq, text_eq→≡, if◌then◌else◌,
}
use vvagent.Error.{Result, ok, err, invalid}

pub data PrincipalKind : Type 0 where
  agent local_user peer : PrincipalKind

unfoldable pub as_str : PrincipalKind → Text
as_str agent = codes "agent"
as_str local_user = codes "local_user"
as_str peer = codes "peer"

unfoldable pub parse : Text → Result PrincipalKind
parse value =
    if text_eq value (codes "agent")
    then ok agent
    else if text_eq value (codes "local_user")
    then ok local_user
    else if text_eq value (codes "peer")
    then ok peer
    else err (invalid (codes "unknown principal `" ++ (value ++ codes "`")))

parse_sound : (s : Text) (k : PrincipalKind) → parse s ≡ ok k → s ≡ as_str k
unfolding parse as_str
parse_sound s k h = ground (
  arith,
  text_eq→≡ s (codes "agent"),
  text_eq→≡ s (codes "local_user"),
  text_eq→≡ s (codes "peer"),
)

parse-as_str : (k : PrincipalKind) → parse (as_str k) ≡ ok k
unfolding parse as_str text_eq codes
parse-as_str agent = refl
parse-as_str _ = refl

-- A text is read as a value exactly when it is that value's spelling.
pub parse_iff : (s : Text) (k : PrincipalKind) → (parse s ≡ ok k) ↔ (s ≡ as_str k)
parse_iff s k = (parse_sound s k, λ e. rw e (parse-as_str k))

unfoldable pub is_peer : PrincipalKind → Bool
is_peer peer = true
is_peer agent = false
is_peer local_user = false

unfoldable pub is_local_user : PrincipalKind → Bool
is_local_user local_user = true
is_local_user agent = false
is_local_user peer = false
