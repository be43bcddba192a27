-- ===== src/Bridge/Bounded.antt =====
-- The decoder never holds more than one maximal frame, and a failure is final.
use vvagent.Base.{
  inl, inr, ℕ, zero, suc, ◌+◌, ◌-◌, ◌≤◌, ◌≡◌, refl, ap, ◌∙◌, Bool, true, false, List, [], ◌∷◌,
  Option, none, some, arith, Text, codes, if◌then◌else◌, length, length-append, length-take, ltb,
  take, drop, min, Bool-cases,
}
use vvagent.Error.{Result, ok, err, ◌>>=◌, MeshError, invalid, refuse_if}
use vvagent.Bridge.Frame.{Frame}
use vvagent.Bridge.Codec.{
  Json, hello_len, frame_len, decode_hello, decode_frame, hello_header_bytes, frame_header_bytes,
}
use vvagent.Bridge.Decoder.{
  Decoder, decoder_new, capacity, push, slice, guard, after, take_hello, hello_step, next_hello,
  take_frame, frame_step, next_frame, finish,
}

-- One call of a method.
pub data Call : Type 0 where
  pushes : List ℕ → Call
  wants_hello : Call
  wants_frame : Call

abbrev pub Small : Decoder → Type 0
Small d = length d.buffer ≤ capacity

length-drop-le : (n : ℕ) (xs : List ℕ) → length (drop n xs) ≤ length xs
length-drop-le zero xs = omega arith
length-drop-le (suc n) [] = omega arith
length-drop-le (suc n) (x ∷ xs) = omega (arith, length-drop-le n xs)

-- A step that succeeds leaves no more bytes than it found.
abbrev Shrinks {ℓ} : {A : Type ℓ} → Decoder → Result (Option A × Decoder) → Type 0
Shrinks d (ok (a, d')) = length d'.buffer ≤ length d.buffer
Shrinks d (err e) = Unit {0}

push-Small : (d : Decoder) (bs : List ℕ) → Small d → Small (push d bs).0
unfolding push
push-Small d bs h =
    let n = min (capacity - length d.buffer) (length bs) in
    ground (arith, length-append d.buffer (take n bs), length-take n bs)

after-Small :
    {A : Type 0} (d : Decoder) (r : Result (Option A × Decoder))
    → Shrinks d r
    → Small d
    → Small (after d r).1
after-Small d (ok (a, d')) s h = omega arith
after-Small d (err e) s h = omega arith

guard-Small :
    {A : Type 0} (d : Decoder) (r : Result (Option A × Decoder))
    → Shrinks d r
    → Small d
    → Small (guard d r).1
unfolding guard
guard-Small d r s h = elim (Bool-cases d.failed) [
  | inl e ↦ rw e h
  | inr e ↦ rw e (after-Small d r s h)
]

bind_Shrinks :
    {A B : Type 0} (d : Decoder) (m : Result B) (f : B → Result (Option A × Decoder))
    → ((b : B) → Shrinks d (f b))
    → Shrinks d (m >>= f)
bind_Shrinks d (ok b) f h = h b
bind_Shrinks d (err e) f h = tt

if_Shrinks :
    {A : Type 0} (d : Decoder) (b : Bool) (x y : Result (Option A × Decoder))
    → Shrinks d x
    → Shrinks d y
    → Shrinks d (if b then x else y)
if_Shrinks d true x y hx hy = hx
if_Shrinks d false x y hx hy = hy

option_Shrinks :
    {A B : Type 0} (d : Decoder) (o : Option B) (f : B → Result (Option A × Decoder))
    → ((b : B) → Shrinks d (f b))
    → Shrinks d (elim o [ none ↦ ok (none, d) | some b ↦ f b ])
option_Shrinks d none f h = omega arith
option_Shrinks d (some b) f h = h b

-- A failed decoder refuses every call and takes no more bytes.
abbrev pub IsDead : Decoder → Type 0
IsDead d = d.failed ≡ true

module _ (is_absolute : Text → Bool) (json : Json) where
  take_frame-Shrinks : (d : Decoder) (n : ℕ) → Shrinks d (take_frame is_absolute json d n)
  unfolding take_frame
  take_frame-Shrinks d n = option_Shrinks d (slice frame_header_bytes n d.buffer) _ (λ body.
      bind_Shrinks d (decode_frame is_absolute json body) _
        (λ f. length-drop-le (frame_header_bytes + n) d.buffer))

  frame_step-Shrinks : (d : Decoder) → Shrinks d (frame_step is_absolute json d)
  unfolding frame_step
  frame_step-Shrinks d = bind_Shrinks d (refuse_if _ _) _ (λ _.
      if_Shrinks d (ltb (length d.buffer) frame_header_bytes) _ _ (omega arith)
        (bind_Shrinks d (frame_len (take 4 d.buffer)) _ (take_frame-Shrinks d)))

  take_hello-Shrinks : (d : Decoder) (n : ℕ) → Shrinks d (take_hello is_absolute json d n)
  unfolding take_hello
  take_hello-Shrinks d n = option_Shrinks d (slice hello_header_bytes n d.buffer) _ (λ body.
      bind_Shrinks d (decode_hello is_absolute json body) _
        (λ h. length-drop-le (hello_header_bytes + n) d.buffer))

  hello_step-Shrinks : (d : Decoder) → Shrinks d (hello_step is_absolute json d)
  unfolding hello_step
  hello_step-Shrinks d = bind_Shrinks d (refuse_if _ _) _ (λ _.
      if_Shrinks d (ltb (length d.buffer) hello_header_bytes) _ _ (omega arith)
        (bind_Shrinks d (hello_len _ _ _) _ (take_hello-Shrinks d)))

  -- The decoder after one call.
  unfoldable pub call : Decoder → Call → Decoder
  call d (pushes bs) = (push d bs).0
  call d wants_hello = (next_hello is_absolute json d).1
  call d wants_frame = (next_frame is_absolute json d).1

  unfoldable pub calls : Decoder → List Call → Decoder
  unfolding call
  calls d [] = d
  calls d (c ∷ cs) = calls (call d c) cs

  call-Small : (d : Decoder) (c : Call) → Small d → Small (call d c)
  unfolding call next_hello next_frame
  call-Small d (pushes bs) h = push-Small d bs h
  call-Small d wants_hello h = guard-Small d _ (hello_step-Shrinks d) h
  call-Small d wants_frame h = guard-Small d _ (frame_step-Shrinks d) h

  calls-Small : (d : Decoder) (cs : List Call) → Small d → Small (calls d cs)
  unfolding calls
  calls-Small d [] h = h
  calls-Small d (c ∷ cs) h = calls-Small (call d c) cs (call-Small d c h)

  -- Whatever the stream brings and in whatever order the methods are called, a new decoder never
  -- holds more than one maximal frame and its header.
  pub calls-bounded : (cs : List Call) → length (calls decoder_new cs).buffer ≤ capacity
  unfolding decoder_new
  calls-bounded cs = calls-Small decoder_new cs (omega arith)

  call-dead : (d : Decoder) (c : Call) → IsDead d → call d c ≡ d
  unfolding call push next_hello next_frame guard
  call-dead d (pushes bs) h = rw h
  call-dead d wants_hello h = rw h
  call-dead d wants_frame h = rw h

  calls-dead : (d : Decoder) (cs : List Call) → IsDead d → calls d cs ≡ d
  unfolding calls
  calls-dead d [] h = refl
  calls-dead d (c ∷ cs) h = ap (λ x. calls x cs) (call-dead d c h) ∙ calls-dead d cs h

  refused_when_dead :
      (d : Decoder)
      → IsDead d
      → (e : MeshError) × (next_frame is_absolute json d ≡ (err e, d)) × (finish d ≡ err e)
  unfolding next_frame guard finish
  refused_when_dead d h = (invalid (codes "the stream already failed"), ground arith, ground arith)

  failing_step :
      (d : Decoder) (r : Result (Option Frame × Decoder)) (e : MeshError)
      → (guard d r).0 ≡ err e
      → IsDead (guard d r).1
  unfolding guard
  failing_step d (ok x) e h = elim (Bool-cases d.failed) [
    | inl f ↦ ground arith
    | inr f ↦ cc (rw f at h)
  ]
  failing_step d (err x) e h = elim (Bool-cases d.failed) [
    | inl f ↦ ground arith
    | inr f ↦ ground arith
  ]

  -- Once `next_frame` has returned an error the decoder never changes again, whatever is called, and
  -- each later `next_frame` and `finish` returns an error.
  pub next_frame_failed :
      (d : Decoder) (e : MeshError) (cs : List Call)
      → (next_frame is_absolute json d).0 ≡ err e
      → let dead = (next_frame is_absolute json d).1 in
        (calls dead cs ≡ dead)
        × ((e' : MeshError) × (next_frame is_absolute json dead ≡ (err e', dead))
            × (finish dead ≡ err e'))
  unfolding next_frame
  next_frame_failed d e cs h =
      let dead = failing_step d (frame_step is_absolute json d) e h in
      (calls-dead _ cs dead, refused_when_dead _ dead)
