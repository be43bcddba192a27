-- ===== src/Message/MediaBinding.antt =====
-- agent-mesh-core/src/lib.rs: `MediaBinding`, which question a media reference answers. The refusal
-- quotes the text that it was given (`{:?}`); its escapes are not modelled.
use vvagent.Base.{◌≡◌, refl, ◌↔◌, ◌++◌, arith, Text, codes, text_eq, text_eq→≡, if◌then◌else◌}
use vvagent.Error.{Result, ok, err, invalid}

pub data MediaBinding : Type 0 where
  pinned live : MediaBinding

unfoldable pub as_str : MediaBinding → Text
as_str pinned = codes "pinned"
as_str live = codes "live"

unfoldable pub parse : Text → Result MediaBinding
parse value =
    if text_eq value (codes "pinned")
    then ok pinned
    else if text_eq value (codes "live")
    then ok live
    else err (invalid (codes "a media binding is `pinned` or `live`, not " ++ (value ++ codes "")))

parse_sound : (s : Text) (k : MediaBinding) → parse s ≡ ok k → s ≡ as_str k
unfolding parse as_str
parse_sound s k h = ground (arith, text_eq→≡ s (codes "pinned"), text_eq→≡ s (codes "live"))

parse-as_str : (k : MediaBinding) → parse (as_str k) ≡ ok k
unfolding parse as_str text_eq codes
parse-as_str pinned = refl
parse-as_str _ = refl

-- A text is read as a value exactly when it is that value's spelling.
pub parse_iff : (s : Text) (k : MediaBinding) → (parse s ≡ ok k) ↔ (s ≡ as_str k)
parse_iff s k = (parse_sound s k, λ e. rw e (parse-as_str k))
