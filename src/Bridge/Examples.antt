-- ===== src/Bridge/Examples.antt =====
-- A toy JSON in which the one frame that can be written is a ping, as one byte.
use vvagent.Base.{
  ℕ, ◌≤◌, ◌≡◌, ◌≢◌, refl, ◌↔◌, Bool, true, false, List, [], ◌∷◌, ◌++◌, Option, none, some, arith,
  Text, length, In,
}
use vvagent.Error.{ok, err, MeshError, new, io}
use vvagent.Identity.Opaque.{Opaque}
use vvagent.Bridge.Frame
use vvagent.Bridge.Frame.{Frame, ping, validate_error, from_mesh, into_mesh}
use vvagent.Bridge.Hello.{Hello, dial, serve, hello_new, frame_types, accept_peer, accept_peer_iff}
use vvagent.Bridge.Codec.{Json, JsonRoundTrips, encode_frame}
use vvagent.Message.Draft.{be_bytes}
use vvagent.Bridge.Decoder.{Decoder, capacity, decoder_new, next_frame, finish, guard, frame_step}
use vvagent.Bridge.Stream.{next_frame-encode, next_frame_waits}
use vvagent.Bridge.Bounded.{Call, pushes, wants_frame, calls, calls-bounded, next_frame_failed}
use vvagent.Bridge.WireErrors.{validate-from_mesh}

abbrev absolute : Text → Bool
absolute s = false

abbrev write_ping : Frame → Option (List ℕ)
write_ping (ping n) = some (n ∷ [])
write_ping _ = none

abbrev read_ping : List ℕ → Option Frame
read_ping (n ∷ []) = some (ping n)
read_ping _ = none

abbrev toy : Json
toy = record {
  write_hello = λ h. none;
  read_hello = λ b. none;
  write_frame = write_ping;
  read_frame = read_ping;
}

toy-frame : (f : Frame) (b : List ℕ) → write_ping f ≡ some b → (read_ping b ≡ some f) × (b ≢ [])
toy-frame (ping n) b h = ground arith
toy-frame _ b h = cc

toy-RoundTrips : JsonRoundTrips toy
toy-RoundTrips = record { hello = λ h b e. cc; frame = toy-frame }

abbrev wire : List ℕ
wire = 0 ∷ 0 ∷ 0 ∷ 1 ∷ 7 ∷ []

encoded : encode_frame absolute toy (ping 7) ≡ ok wire
unfolding encode_frame Frame.validate be_bytes
encoded = refl

abbrev holding : List ℕ → Decoder
holding bs = record { buffer = bs; hello_done = true; failed = false }

next_frame-encode_example :
    next_frame absolute toy (holding (wire ++ 9 ∷ [])) ≡ (ok (some (ping 7)), holding (9 ∷ []))
next_frame-encode_example =
    next_frame-encode absolute toy toy-RoundTrips (ping 7) wire (9 ∷ []) (holding (wire ++ 9 ∷ []))
      encoded refl refl refl

next_frame_waits_example :
    next_frame absolute toy (holding (0 ∷ 0 ∷ 0 ∷ 1 ∷ [])) ≡ (ok none, holding (0 ∷ 0 ∷ 0 ∷ 1 ∷ []))
next_frame_waits_example =
    next_frame_waits absolute toy toy-RoundTrips (ping 7) wire (7 ∷ [])
      (holding (0 ∷ 0 ∷ 0 ∷ 1 ∷ [])) encoded refl refl refl (λ e. cc)

abbrev some_calls : List Call
some_calls = pushes wire ∷ wants_frame ∷ []

calls-bounded_example : length (calls absolute toy decoder_new some_calls).buffer ≤ capacity
calls-bounded_example = calls-bounded absolute toy some_calls

early : (e : MeshError) × ((next_frame absolute toy decoder_new).0 ≡ err e)
unfolding next_frame guard frame_step decoder_new
early = (_, refl)

next_frame_failed_example :
    let dead = (next_frame absolute toy decoder_new).1 in
    (calls absolute toy dead some_calls ≡ dead)
    × ((e' : MeshError) × (next_frame absolute toy dead ≡ (err e', dead)) × (finish dead ≡ err e'))
next_frame_failed_example = next_frame_failed absolute toy decoder_new early.0 some_calls early.1

abbrev disk_error : MeshError
disk_error = new io (b'x' ∷ 10 ∷ [])

validate-from_mesh_example :
    (validate_error (from_mesh disk_error) ≡ ok tt)
    × ((into_mesh (from_mesh disk_error)).code ≡ disk_error.code)
    × ((into_mesh (from_mesh disk_error)).message ≡ (from_mesh disk_error).message)
    × ((into_mesh (from_mesh disk_error)).candidates ≡ (from_mesh disk_error).candidates)
validate-from_mesh_example = validate-from_mesh disk_error

abbrev store : ℕ → Opaque
store n = record { chars = n ∷ [] }

abbrev ours : Hello
ours = hello_new (store 1) dial

abbrev theirs : Hello
theirs = hello_new (store 2) serve

accept_peer_iff_example : (accept_peer ours theirs ≡ ok tt) ↔ (
    (theirs.role ≢ ours.role)
    × ((theirs.host_id ≢ ours.host_id)
        × ((name : Text) → In name frame_types → In name theirs.understands)))
accept_peer_iff_example = accept_peer_iff ours theirs
