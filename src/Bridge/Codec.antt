-- ===== src/Bridge/Codec.antt =====
-- Encoding and decoding one hello or frame. The JSON of each (`serde_json`) is a record of functions;
-- what the proofs need of it is the record `JsonRoundTrips`.
use vvagent.Base.{
  ℕ, ◌+◌, ◌*◌, ◌≡◌, ◌≢◌, Bool, true, false, not, ◌&&◌, ◌||◌, List, [], ◌∷◌, ◌++◌, Option, some,
  Text, codes, length, ltb, ◌==◌,
}
use vvagent.Error.{Result, ok, ◌>>=◌, ◌>>◌, invalid, ok_or, refuse_if}
use vvagent.Address.Decimal.{decimal}
use vvagent.Message.Draft.{be_bytes}
use vvagent.Bridge.Frame
use vvagent.Bridge.Frame.{Frame}
use vvagent.Bridge.Hello.{Hello, validate_hello}

abbrev pub version : ℕ
version = 1

abbrev pub max_frame_bytes : ℕ
max_frame_bytes = 384 * 1024

abbrev pub max_hello_bytes : ℕ
max_hello_bytes = 4 * 1024

abbrev pub hello_header_bytes : ℕ
hello_header_bytes = 10

abbrev pub frame_header_bytes : ℕ
frame_header_bytes = 4

abbrev pub magic : List ℕ
magic = b'V' ∷ b'V' ∷ b'A' ∷ b'B' ∷ []

-- `serde_json::to_vec` and `serde_json::from_slice` for the two types.
pub record Json : Type 0 where
  pub write_hello : Hello → Option (List ℕ)
  pub read_hello : List ℕ → Option Hello
  pub write_frame : Frame → Option (List ℕ)
  pub read_frame : List ℕ → Option Frame

-- What is written is read back, and no JSON text is empty.
pub record JsonRoundTrips (json : Json) : Type 0 where
  pub hello :
      (h : Hello) (b : List ℕ)
      → json.write_hello h ≡ some b
      → (json.read_hello b ≡ some h) × (b ≢ [])
  pub frame :
      (f : Frame) (b : List ℕ)
      → json.write_frame f ≡ some b
      → (json.read_frame b ≡ some f) × (b ≢ [])

-- `u32::to_be_bytes` of a length that fits.
abbrev pub length_prefix : ℕ → List ℕ
length_prefix n = be_bytes 4 n

abbrev pub be_value_from : ℕ → List ℕ → ℕ
be_value_from n [] = n
be_value_from n (b ∷ bs) = be_value_from (n * 256 + b) bs

-- `u16::from_be_bytes` and `u32::from_be_bytes`
unfoldable pub be_value : List ℕ → ℕ
be_value bs = be_value_from 0 bs

unfoldable pub same_bytes : List ℕ → List ℕ → Bool
same_bytes [] [] = true
same_bytes (a ∷ as') (b ∷ bs) = (a == b) && same_bytes as' bs
same_bytes _ _ = false

abbrev announced : Text → ℕ → Text → Text
announced what length limit =
    codes "a "
    ++ (what
        ++ (codes " announces "
            ++ (decimal length ++ (codes " bytes; the limit is 1..=" ++ limit))))

abbrev pub within : ℕ → ℕ → Bool
within length limit = length == 0 || ltb limit length

-- Of the four bytes of magic, the two of version and the four of length.
unfoldable pub hello_len : List ℕ → List ℕ → List ℕ → Result ℕ
unfolding same_bytes
hello_len magic_bytes version_bytes length_bytes = do
  refuse_if (not (same_bytes magic_bytes magic)) (codes "not a VVAM-BRIDGE stream")
  refuse_if (not (be_value version_bytes == version)) (
      codes "the peer speaks VVAM-BRIDGE/"
      ++ (decimal (be_value version_bytes) ++ codes "; this bridge speaks /1"))
  refuse_if (within (be_value length_bytes) max_hello_bytes)
      (announced (codes "hello") (be_value length_bytes) (codes "4096"))
  ok (be_value length_bytes)

unfoldable pub frame_len : List ℕ → Result ℕ
frame_len header = do
  refuse_if (within (be_value header) max_frame_bytes)
      (announced (codes "frame") (be_value header) (codes "393216"))
  ok (be_value header)

module _ (is_absolute : Text → Bool) (json : Json) where
  unfoldable pub encode_hello : Hello → Result (List ℕ)
  encode_hello h = do
    validate_hello h
    body ← ok_or (json.write_hello h) (invalid (codes "the hello has no JSON"))
    refuse_if (ltb max_hello_bytes (length body)) (codes "a hello is over its size limit")
    ok (magic ++ (be_bytes 2 version ++ (length_prefix (length body) ++ body)))

  unfoldable pub encode_frame : Frame → Result (List ℕ)
  encode_frame f = do
    Frame.validate is_absolute f
    body ← ok_or (json.write_frame f) (invalid (codes "the frame has no JSON"))
    refuse_if (ltb max_frame_bytes (length body)) (codes "a frame is over the 393216-byte limit")
    ok (length_prefix (length body) ++ body)

  unfoldable pub decode_hello : List ℕ → Result Hello
  decode_hello body = do
    refuse_if (ltb max_hello_bytes (length body)) (codes "a hello is over its size limit")
    h ← ok_or (json.read_hello body) (invalid (codes "bad hello"))
    validate_hello h
    ok h

  unfoldable pub decode_frame : List ℕ → Result Frame
  decode_frame body = do
    refuse_if (ltb max_frame_bytes (length body)) (codes "a frame is over its size limit")
    f ← ok_or (json.read_frame body) (invalid (codes "bad frame"))
    Frame.validate is_absolute f
    ok f
