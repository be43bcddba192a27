-- ===== src/Bridge/Stream.antt =====
-- The decoder reads back what the encoder wrote, and waits on anything shorter.
use vvagent.Base.{
  ℕ, zero, suc, ◌+◌, ◌^◌, ◌≤◌, ◌<◌, ◌≡◌, ◌≢◌, refl, sym, ap, subst, ◌∙◌, inl, inr, Bool, true,
  false, List, [], ◌∷◌, ◌++◌, append_assoc, Option, none, some, arith, Text, length, length-append,
  ltb, take, drop, take-append, drop-append, Bool-cases,
}
use vvagent.Error.{Result, ok, ok_or, refuse_if, refuse_if_iff, >>=-eq-ok, >>-eq-ok, ok_or-eq-ok}
use vvagent.Message.Draft.{be_bytes}
use vvagent.Bridge.Frame
use vvagent.Bridge.Frame.{Frame}
use vvagent.Bridge.Codec.{
  Json, JsonRoundTrips, be_value, frame_len, encode_frame, decode_frame, length_prefix,
  max_frame_bytes,
}
use vvagent.Bridge.Decoder.{Decoder, slice, after, take_frame, frame_step, next_frame}

be_value-be_bytes : (n : ℕ) → n < 2 ^ 32 → be_value (be_bytes 4 n) ≡ n
unfolding be_value be_bytes
be_value-be_bytes n h = omega arith

length-prefix : (n : ℕ) → length (length_prefix n) ≡ 4
unfolding be_bytes
length-prefix n = refl

frame_len-prefix : (n : ℕ) → 0 < n → n ≤ max_frame_bytes → frame_len (length_prefix n) ≡ ok n
unfolding frame_len
frame_len-prefix n h k = ground (arith, be_value-be_bytes n)

positive : (xs : List ℕ) → xs ≢ [] → 0 < length xs
positive [] h = absurd (h refl)
positive (x ∷ xs) h = omega arith

-- A front of known length.
take_front : (n : ℕ) (p q : List ℕ) → length p ≡ n → take n (p ++ q) ≡ p
take_front n p q h = subst (λ m. take m (p ++ q) ≡ p) h (take-append p q)

drop_front : (n : ℕ) (p q : List ℕ) → length p ≡ n → drop n (p ++ q) ≡ q
drop_front n p q h = subst (λ m. drop m (p ++ q) ≡ q) h (drop-append p q)

take_longer : (n : ℕ) (xs ys : List ℕ) → n ≤ length xs → take n xs ≡ take n (xs ++ ys)
take_longer zero xs ys h = refl
take_longer (suc n) [] ys h = absurd (omega arith)
take_longer (suc n) (x ∷ xs) ys h = ap (◌∷◌ x) (take_longer n xs ys (omega arith))

slice_front :
    (n : ℕ) (p body rest : List ℕ)
    → length p ≡ 4
    → length body ≡ n
    → slice 4 n (p ++ (body ++ rest)) ≡ some body
slice_front n p body rest hp hb =
    rw (drop_front 4 p (body ++ rest) hp, take_front n body rest hb)
      (ground (arith, length-append p (body ++ rest), length-append body rest))

slice_short :
    (n : ℕ) (p part : List ℕ) → length p ≡ 4 → length part < n → slice 4 n (p ++ part) ≡ none
slice_short n p part hp hn = ground (arith, length-append p part)

module _ (is_absolute : Text → Bool) (json : Json) (laws : JsonRoundTrips json) where
  decode_ok :
      (body : List ℕ) (f : Frame)
      → json.read_frame body ≡ some f
      → Frame.validate is_absolute f ≡ ok tt
      → ltb max_frame_bytes (length body) ≡ false
      → decode_frame is_absolute json body ≡ ok f
  unfolding decode_frame
  decode_ok body f read valid fits = ground arith

  -- What an encoded frame is made of.
  encode_frame_parts :
      (f : Frame) (b : List ℕ)
      → encode_frame is_absolute json f ≡ ok b
      → (body : List ℕ) × (b ≡ length_prefix (length body) ++ body)
        × (0 < length body)
        × (length body ≤ max_frame_bytes)
        × (decode_frame is_absolute json body ≡ ok f)
  unfolding encode_frame
  encode_frame_parts f b h =
      let (valid, h1) = (>>-eq-ok (Frame.validate is_absolute f) _ b).0 h in
      let (body, written, h2) = >>=-eq-ok (ok_or (json.write_frame f) _) _ h1 in
      let (small, h3) = (>>-eq-ok (refuse_if (ltb max_frame_bytes (length body)) _) _ b).0 h2 in
      let (read, nonempty) = laws.frame f body (ok_or-eq-ok (json.write_frame f) _ written) in
      let fits = (refuse_if_iff (ltb max_frame_bytes (length body)) _).0 small in
      (body, ground arith, positive body nonempty, ground arith, decode_ok body f read valid fits)

  take_frame_ok :
      (d : Decoder) (n : ℕ) (body rest : List ℕ) (f : Frame)
      → slice 4 n d.buffer ≡ some body
      → decode_frame is_absolute json body ≡ ok f
      → drop (4 + n) d.buffer ≡ rest
      → take_frame is_absolute json d n ≡ ok (some f, record d { buffer = rest })
  unfolding take_frame
  take_frame_ok d n body rest f h k r =
      let shape : take_frame is_absolute json d n
          ≡ ok (some f, record d { buffer = drop (4 + n) d.buffer }) =
        ground arith in
      shape ∙ ap (λ x. ok (some f, record d { buffer = x })) r

  take_frame_waits :
      (d : Decoder) (n : ℕ)
      → length d.buffer < 4 + n
      → take_frame is_absolute json d n ≡ ok (none, d)
  unfolding take_frame
  take_frame_waits d n h = ground arith

  frame_step_header :
      (d : Decoder) (n : ℕ)
      → d.hello_done ≡ true
      → 4 ≤ length d.buffer
      → frame_len (take 4 d.buffer) ≡ ok n
      → frame_step is_absolute json d ≡ take_frame is_absolute json d n
  unfolding frame_step
  frame_step_header d n greeted long h = ground arith

  frame_step_waits :
      (d : Decoder)
      → d.hello_done ≡ true
      → length d.buffer < 4
      → frame_step is_absolute json d ≡ ok (none, d)
  unfolding frame_step
  frame_step_waits d greeted short = ground arith

  next_frame_alive :
      (d : Decoder) (r : Result (Option Frame × Decoder))
      → d.failed ≡ false
      → frame_step is_absolute json d ≡ r
      → next_frame is_absolute json d ≡ after d r
  unfolding next_frame
  next_frame_alive d r alive h = ground arith

  -- A decoder past the hello whose buffer begins with an encoded frame returns that frame, and
  -- keeps exactly the bytes behind it.
  pub next_frame-encode :
      (f : Frame) (b rest : List ℕ) (d : Decoder)
      → encode_frame is_absolute json f ≡ ok b
      → d.failed ≡ false
      → d.hello_done ≡ true
      → d.buffer ≡ b ++ rest
      → next_frame is_absolute json d ≡ (ok (some f), record d { buffer = rest })
  next_frame-encode f b rest d h alive greeted full =
      let (body, parts, pos, small, decoded) = encode_frame_parts f b h in
      let n = length body in
      let p = length_prefix n in
      let four = length-prefix n in
      let layout : d.buffer ≡ p ++ (body ++ rest) =
        full ∙ ap (λ x. x ++ rest) parts ∙ append_assoc p body rest in
      let header : frame_len (take 4 d.buffer) ≡ ok n =
        ap (λ x. frame_len (take 4 x)) layout
        ∙ ap frame_len (take_front 4 p (body ++ rest) four)
        ∙ frame_len-prefix n pos small in
      let long : 4 ≤ length d.buffer =
        omega (arith, ap length layout, length-append p (body ++ rest), four) in
      let content : slice 4 n d.buffer ≡ some body =
        ap (slice 4 n) layout ∙ slice_front n p body rest four refl in
      let behind : drop (4 + n) d.buffer ≡ rest =
        ap (drop (4 + n)) full
        ∙ drop_front (4 + n) b rest
            (ap length parts ∙ length-append p body ∙ ap (λ x. x + n) four) in
      next_frame_alive d _ alive (
        frame_step_header d n greeted long header
        ∙ take_frame_ok d n body rest f content decoded behind)

  -- Given any proper front of an encoded frame the decoder returns nothing and stays as it is.
  pub next_frame_waits :
      (f : Frame) (b more : List ℕ) (d : Decoder)
      → encode_frame is_absolute json f ≡ ok b
      → d.failed ≡ false
      → d.hello_done ≡ true
      → b ≡ d.buffer ++ more
      → more ≢ []
      → next_frame is_absolute json d ≡ (ok none, d)
  next_frame_waits f b more d h alive greeted front nonempty =
      let (body, parts, pos, small, decoded) = encode_frame_parts f b h in
      let n = length body in
      let p = length_prefix n in
      let four = length-prefix n in
      let whole : length d.buffer + length more ≡ 4 + n =
        sym (length-append d.buffer more)
        ∙ ap length (sym front ∙ parts)
        ∙ length-append p body
        ∙ ap (λ x. x + n) four in
      let left = positive more nonempty in
      elim (Bool-cases (ltb (length d.buffer) 4)) [
        | inl short ↦ next_frame_alive d _ alive (frame_step_waits d greeted (ground arith))
        | inr long ↦
            let enough : 4 ≤ length d.buffer = ground arith in
            let header : frame_len (take 4 d.buffer) ≡ ok n =
              ap frame_len (
                take_longer 4 d.buffer more enough
                ∙ ap (take 4) (sym front ∙ parts)
                ∙ take_front 4 p body four)
              ∙ frame_len-prefix n pos small in
            next_frame_alive d _ alive
              (frame_step_header d n greeted enough header ∙ take_frame_waits d n (omega arith))
      ]
