-- ===== src/Message/Ref.antt =====
-- agent-mesh-core/src/lib.rs: `Ref`, a bounded claim about something outside the mesh. Whether a
-- path is absolute on this host (`std::path::Path::is_absolute`) depends on the platform and is an
-- argument.
use vvagent.Base.{
  ℕ, Bool, true, false, ◌&&◌, ◌||◌, not, List, ◌∷◌, Option, some, Text, if◌then◌else◌, codes, bytes,
  len, ltb, ◌==◌, any, all, is_empty, is_some_and, is_ascii_hexdigit, is_ascii_alphabetic,
}
use vvagent.Error.{Result, ◌>>◌, refuse_if}
use vvagent.Identity.Opaque.{Opaque}
use vvagent.Identity.RuntimeKind.{RuntimeKind}
use vvagent.Identity.Split.{starts_with}
use vvagent.Message.MediaBinding.{MediaBinding}

abbrev pub max_path_bytes : ℕ
max_path_bytes = 4096

abbrev pub max_pane_field_bytes : ℕ
max_pane_field_bytes = 64

abbrev pub max_resource_id_bytes : ℕ
max_resource_id_bytes = 128

pub record PaneRef : Type 0 where
  pub runtime : RuntimeKind
  pub workspace : Option Text
  pub tab : Option Text
  pub pane_id : Option ℕ

pub data Ref : Type 0 where
  file : (path : Text) → (sha256 : Option Text) → (size : Option ℕ) → (host : Option Opaque) → Ref
  pane : Opaque → PaneRef → Ref
  media : Opaque → Text → MediaBinding → Ref

unfoldable pub control_byte : ℕ → Bool
control_byte b = b == 0 || ltb b 0x20 || b == 0x7f

abbrev pub separator : ℕ → Bool
separator b = b == b'\\' || b == b'/'

-- A drive letter, a colon and a separator.
unfoldable pub drive_path : List ℕ → Bool
drive_path (a ∷ b ∷ c ∷ rest) = is_ascii_alphabetic a && b == b':' && separator c
drive_path _ = false

unfoldable pub looks_absolute_anywhere : Text → Bool
unfolding drive_path
looks_absolute_anywhere path =
    starts_with (codes "/") path || starts_with (codes "\\\\") path || drive_path (bytes path)

unfoldable pub bad_digest : Text → Bool
bad_digest digest = not (len digest == 64) || not (all is_ascii_hexdigit (bytes digest))

-- One of a pane reference's two labels is too long or holds a control byte.
unfoldable pub bad_label : Text → Bool
bad_label field =
    ltb max_pane_field_bytes (len field) || any (λ b. ltb b 0x20 || b == 0x7f) (bytes field)

module _ (is_absolute : Text → Bool) where
  unfoldable pub check : Bool → Ref → Result (Unit {0})
  check elsewhere (file path sha256 size host) = do
    refuse_if (is_empty path || ltb max_path_bytes (len path))
        (codes "a file reference path is 1..=4096 bytes")
    refuse_if (any control_byte (bytes path))
        (codes "a file reference path may not contain NUL or control bytes")
    refuse_if (not (if elsewhere then looks_absolute_anywhere path else is_absolute path))
        (codes "a file reference path must be absolute")
    refuse_if (is_some_and sha256 bad_digest) (codes "a sha256 is 64 hex characters")
  check elsewhere (pane id locator) = do
    refuse_if (is_some_and locator.workspace bad_label)
        (codes "a pane reference's workspace and tab are at most 64 bytes with no control bytes")
    refuse_if (is_some_and locator.tab bad_label)
        (codes "a pane reference's workspace and tab are at most 64 bytes with no control bytes")
  check elsewhere (media id resource binding) = do
    refuse_if (is_empty resource || ltb max_resource_id_bytes (len resource))
        (codes "a media resource id is 1..=128 bytes")
    refuse_if (any control_byte (bytes resource))
        (codes "a media resource id may not contain NUL or control bytes")

  -- A file on a peer host is judged by the rules for elsewhere.
  abbrev pub on_peer : Ref → Bool
  on_peer (file path sha256 size (some host)) = true
  on_peer _ = false

  unfoldable pub validate : Ref → Result (Unit {0})
  unfolding check
  validate r = check (on_peer r) r

  unfoldable pub validate_elsewhere : Ref → Result (Unit {0})
  unfolding check
  validate_elsewhere r = check true r
