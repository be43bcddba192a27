-- ===== src/Identity/PeerLabel.antt =====
-- agent-mesh-core/src/lib.rs: `PeerLabel`, the local name of a peer host.
use vvagent.Base.{
  ℕ, ◌<◌, ◌≡◌, refl, Bool, true, false, ◌&&◌, ◌||◌, not, List, [], ◌∷◌, ◌++◌, none, some, arith,
  Text, leb, ◌==◌, if◌then◌else◌, all, is_empty, codes, bytes, utf8, len, is_ascii_lowercase,
  is_ascii_digit, is_ascii_uppercase, all-split, unwrap_or,
}
use vvagent.Error.{Result, ok, err, invalid}
use vvagent.Identity.Split.{
  strip_prefix, starts_with, split_once, rsplit_once, to_ascii_lowercase, Lacks,
  strip_prefix-append, rsplit_once-append, split_once-append,
}

abbrev pub max_peer_label_bytes : ℕ
max_peer_label_bytes = 64

pub record PeerLabel : Type 0 where
  pub chars : Text

unfoldable pub label_byte : ℕ → Bool
label_byte b = is_ascii_lowercase b || is_ascii_digit b || b == b'-' || b == b'_' || b == b'.'

unfoldable pub label_bytes : List ℕ → Bool
unfolding label_byte
label_bytes [] = false
label_bytes (b ∷ bs) = (is_ascii_lowercase b || is_ascii_digit b) && all label_byte bs

unfoldable pub parse : Text → Result PeerLabel
unfolding label_bytes
parse value =
    if not (is_empty value) && leb (len value) max_peer_label_bytes && label_bytes (bytes value)
    then ok (record { chars = value })
    else err (
        invalid (
          codes
            "a peer label starts with a lowercase letter or digit and contains only lowercase letters, digits, '-', '_' or '.' (1..=64 bytes)"))

-- The text behind the last `@`, or all of it.
unfoldable pub host_part : Text → Text
host_part rest = elim (rsplit_once b'@' rest) [ none ↦ rest | some (user, host) ↦ host ]

-- The text before the first `:`, or all of it.
unfoldable pub without_port : Text → Text
without_port host = elim (split_once b':' host) [ none ↦ host | some (name, port) ↦ name ]

unfoldable pub from_destination : Text → Result PeerLabel
unfolding host_part without_port
from_destination destination =
    let rest = unwrap_or (strip_prefix (codes "ssh://") destination) destination in
    let host = host_part rest in
    let host = if starts_with (codes "ssh://") destination then without_port host else host in
    parse (to_ascii_lowercase host)

unfoldable pub as_str : PeerLabel → Text
as_str l = l.chars

utf8_low : (c : ℕ) → all label_byte (utf8 c) ≡ true → (c < 0x80) × (label_byte c ≡ true)
unfolding utf8 label_byte is_ascii_lowercase is_ascii_digit
utf8_low c k = ground arith

label_bytes-all : (bs : List ℕ) → label_bytes bs ≡ true → all label_byte bs ≡ true
unfolding label_bytes
label_bytes-all [] h = refl
label_bytes-all (b ∷ bs) h = unfold label_byte in ground arith

label_chars : (s : Text) → all label_byte (bytes s) ≡ true → all label_byte s ≡ true
unfolding bytes
label_chars [] h = refl
label_chars (c ∷ s) h =
    let (front, back) = all-split label_byte (utf8 c) (bytes s) h in
    ground (arith, utf8_low c front, label_chars s back)

label-Lacks : (s : Text) → all label_byte s ≡ true → Lacks b'@' s × Lacks b':' s × Lacks b'/' s
unfolding label_byte is_ascii_lowercase is_ascii_digit
label-Lacks [] h = (tt, tt, tt)
label-Lacks (c ∷ s) h = ground (arith, label-Lacks s)

label_lower : (s : Text) → all label_byte s ≡ true → to_ascii_lowercase s ≡ s
unfolding to_ascii_lowercase label_byte is_ascii_lowercase is_ascii_digit is_ascii_uppercase
label_lower [] h = refl
label_lower (c ∷ s) h = ground (arith, label_lower s)

accepted_chars :
    (s : Text) (l : PeerLabel) → parse s ≡ ok l → (as_str l ≡ s) × (all label_byte s ≡ true)
unfolding parse as_str
accepted_chars s l h =
    let all_bytes : label_bytes (bytes s) ≡ true = ground arith in
    (ground arith, label_chars s (label_bytes-all (bytes s) all_bytes))

-- A peer label holds no `@`, `:` or `/`, so that `@label:selector` cannot be read two ways.
pub parse-Lacks :
    (s : Text) (l : PeerLabel)
    → parse s ≡ ok l
    → (as_str l ≡ s) × Lacks b'@' s × Lacks b':' s × Lacks b'/' s
parse-Lacks s l h =
    let (same, chars) = accepted_chars s l h in
    let (at, colon, slash) = label-Lacks s chars in (same, at, colon, slash)

host_part-append : (user host : Text) → Lacks b'@' host → host_part (user ++ b'@' ∷ host) ≡ host
unfolding host_part
host_part-append user host h = ground (arith, rsplit_once-append b'@' user host h)

without_port-append :
    (host port : Text) → Lacks b':' host → without_port (host ++ b':' ∷ port) ≡ host
unfolding without_port
without_port-append host port h = ground (arith, split_once-append b':' host port h)

Lacks-append : (a : ℕ) (s t : Text) → Lacks a s → Lacks a t → Lacks a (s ++ t)
Lacks-append a [] t h k = k
Lacks-append a (c ∷ s) t h k = (h.0, Lacks-append a s t h.1 k)

-- An SSH destination `ssh://user@host:port` gives the label that its host spells, whatever the user
-- is, where the host is a label and the port holds no `@`.
pub from_destination-url :
    (user host port : Text) (l : PeerLabel)
    → Lacks b'@' port
    → parse host ≡ ok l
    → from_destination (codes "ssh://" ++ (user ++ b'@' ∷ (host ++ b':' ∷ port))) ≡ ok l
unfolding from_destination starts_with
from_destination-url user host port l no_at h =
    let (same, no_at_host, colon, _) = parse-Lacks host l h in
    rw
      (
        strip_prefix-append (codes "ssh://") (user ++ b'@' ∷ (host ++ b':' ∷ port)),
        host_part-append user (host ++ b':' ∷ port)
            (Lacks-append b'@' host (b':' ∷ port) no_at_host ((λ e. omega arith), no_at)),
        without_port-append host port colon,
        label_lower host (accepted_chars host l h).1,
      )
      h
