-- ===== src/Bridge/Decoder.antt =====
-- `Decoder`, which reassembles a byte stream into a hello and then frames. A method returns its
-- result and the decoder after it.
use vvagent.Base.{
  ℕ, ◌+◌, ◌-◌, Bool, true, false, not, List, [], ◌++◌, Option, none, some, Text, if◌then◌else◌,
  codes, length, ltb, leb, take, drop, min, is_empty,
}
use vvagent.Error.{Result, ok, err, ◌>>=◌, ◌>>◌, invalid, refuse_if}
use vvagent.Address.Decimal.{decimal}
use vvagent.Bridge.Frame.{Frame}
use vvagent.Bridge.Hello.{Hello}
use vvagent.Bridge.Codec.{
  Json, hello_len, frame_len, decode_hello, decode_frame, max_frame_bytes, frame_header_bytes,
  hello_header_bytes,
}

pub record Decoder : Type 0 where
  pub buffer : List ℕ
  pub hello_done : Bool
  pub failed : Bool

unfoldable pub decoder_new : Decoder
decoder_new = record { buffer = []; hello_done = false; failed = false }

abbrev pub capacity : ℕ
capacity = frame_header_bytes + max_frame_bytes

-- Returns the decoder and how many bytes it took.
unfoldable pub push : Decoder → List ℕ → Decoder × ℕ
push d bytes =
    if d.failed
    then (d, 0)
    else let n = min (capacity - length d.buffer) (length bytes) in
      (record d { buffer = d.buffer ++ take n bytes }, n)

-- `slice::get(from..from + n)`
abbrev pub slice : ℕ → ℕ → List ℕ → Option (List ℕ)
slice from n bytes = if leb (from + n) (length bytes) then some (take n (drop from bytes)) else none

module _ {A : Type 0} where
  -- What a failing step leaves behind.
  abbrev pub after : Decoder → Result (Option A × Decoder) → Result (Option A) × Decoder
  after d (ok (a, d')) = (ok a, d')
  after d (err e) = (err e, record d { buffer = []; failed = true })

  unfoldable pub guard : Decoder → Result (Option A × Decoder) → Result (Option A) × Decoder
  guard d step =
      if d.failed then (err (invalid (codes "the stream already failed")), d) else after d step

module _ (is_absolute : Text → Bool) (json : Json) where
  -- Of a buffer that holds a whole header.
  unfoldable pub take_hello : Decoder → ℕ → Result (Option Hello × Decoder)
  take_hello d n = elim (slice hello_header_bytes n d.buffer) [
    | none ↦ ok (none, d)
    | some body ↦ decode_hello is_absolute json body >>= λ h.
        ok (some h, record d { buffer = drop (hello_header_bytes + n) d.buffer; hello_done = true })
  ]

  unfoldable pub hello_step : Decoder → Result (Option Hello × Decoder)
  unfolding take_hello
  hello_step d = do
    refuse_if d.hello_done (codes "the hello was already received")
    if ltb (length d.buffer) hello_header_bytes
        then ok (none, d)
        else hello_len (take 4 d.buffer) (take 2 (drop 4 d.buffer)) (take 4 (drop 6 d.buffer))
          >>= λ n. take_hello d n

  unfoldable pub next_hello : Decoder → Result (Option Hello) × Decoder
  unfolding guard hello_step
  next_hello d = guard d (hello_step d)

  unfoldable pub take_frame : Decoder → ℕ → Result (Option Frame × Decoder)
  take_frame d n = elim (slice frame_header_bytes n d.buffer) [
    | none ↦ ok (none, d)
    | some body ↦ decode_frame is_absolute json body >>= λ f.
        ok (some f, record d { buffer = drop (frame_header_bytes + n) d.buffer })
  ]

  unfoldable pub frame_step : Decoder → Result (Option Frame × Decoder)
  unfolding take_frame
  frame_step d = do
    refuse_if (not d.hello_done) (codes "a frame arrived before the hello")
    if ltb (length d.buffer) frame_header_bytes
        then ok (none, d)
        else frame_len (take 4 d.buffer) >>= λ n. take_frame d n

  unfoldable pub next_frame : Decoder → Result (Option Frame) × Decoder
  unfolding guard frame_step
  next_frame d = guard d (frame_step d)

-- At the end of the stream.
unfoldable pub finish : Decoder → Result (Unit {0})
finish d =
    if d.failed
    then err (invalid (codes "the stream already failed"))
    else if is_empty d.buffer
    then ok tt
    else err (
        invalid (
          codes "the stream ended "
          ++ (decimal (length d.buffer)
              ++ (codes " bytes into an incomplete "
                  ++ (if d.hello_done then codes "frame" else codes "hello")))))

unfoldable pub buffered : Decoder → ℕ
buffered d = length d.buffer
