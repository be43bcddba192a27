-- ===== src/Selector/Remote.antt =====
-- `RemoteSelector` and `RemoteSelector::parse`.
use vvagent.Base.{
  ℕ, Bool, ◌||◌, ◌++◌, Option, none, some, Text, if◌then◌else◌, codes, is_empty, unwrap_or, ltb,
  len, any, is_control, keep, text_eq,
}
use vvagent.Error.{Result, ok, err, ◌>>=◌, invalid, ok_or}
use vvagent.Address.Defs
use vvagent.Address.Defs.{Address, Segment, rank, window}
use vvagent.Identity.Split.{strip_prefix, starts_with, split_once}
use vvagent.Identity.Opaque
use vvagent.Identity.Opaque.{Opaque}
use vvagent.Identity.PeerLabel
use vvagent.Identity.PeerLabel.{PeerLabel}
use vvagent.Selector.Defs.{local_prefix}

abbrev pub max_selector_bytes : ℕ
max_selector_bytes = 256

pub data RemoteSelector : Type 0 where
  exact : PeerLabel → Opaque → RemoteSelector
  named : PeerLabel → Text → RemoteSelector
  through : ℕ → Address → RemoteSelector

-- Behind `agent://`.
unfoldable pub parse_agent : Text → Result (Option RemoteSelector)
parse_agent rest = elim (split_once b'/' rest) [
  | none ↦ ok none
  | some (peer, id) ↦
      if text_eq peer (codes "local")
      then ok none
      else PeerLabel.parse peer >>= λ label.
          Opaque.parse id >>= λ endpoint. ok (some (exact label endpoint))
]

-- The selector behind `@<peer>:`, with the local prefix taken off.
unfoldable pub parse_named : PeerLabel → Text → Result (Option RemoteSelector)
parse_named peer selector = elim (Opaque.parse selector) [
  | ok endpoint ↦ ok (some (exact peer endpoint))
  | err e ↦
      if is_empty selector || ltb max_selector_bytes (len selector) || any is_control selector
      then err (
          invalid (
            codes "the selector after `@"
            ++ (PeerLabel.as_str peer ++ codes ":` is 1..=256 bytes with no control characters")))
      else if starts_with (codes "@") selector || starts_with (codes "agent://") selector
      then err
          (invalid (codes "a peer resolves only its own agents; mail is never routed through it"))
      else ok (some (named peer selector))
]

-- Behind `@`.
unfoldable pub parse_at : Text → Result (Option RemoteSelector)
unfolding parse_named
parse_at rest =
    ok_or (split_once b':' rest) (invalid (codes "a remote selector is `@<peer>:<selector>`"))
    >>= λ parts. PeerLabel.parse parts.0 >>= λ peer.
        parse_named peer (unwrap_or (strip_prefix local_prefix parts.1) parts.1)

abbrev pub inside_window : Segment → Bool
inside_window s = ltb (rank window) (rank s.level)

-- A positional form: the window, and what stands inside it.
unfoldable pub parse_position : Text → Result (Option RemoteSelector)
parse_position value = elim (Defs.parse value) [
  | err e ↦ ok none
  | ok address ↦ elim (Defs.get address window) [
    | none ↦ ok none
    | some index ↦
        let rest = keep inside_window address.segments in
        if is_empty rest
        then ok none
        else Defs.new rest >>= λ inner. ok (some (through index inner))
  ]
]

unfoldable pub parse : Text → Result (Option RemoteSelector)
unfolding parse_agent parse_at parse_position
parse value = elim (strip_prefix (codes "agent://") value) [
  | some rest ↦ parse_agent rest
  | none ↦ elim (strip_prefix (codes "@") value) [
    | some rest ↦ parse_at rest
    | none ↦ parse_position value
  ]
]
