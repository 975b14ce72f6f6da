-- ===== src/Transport/Frames.antt =====
-- transport.rs: stream types and frames. What is written is the list of bytes behind a writer; a
-- reader is the list of bytes that are still to come, and `read_exact` fails where there are too few.
use post_urbit.Prelude.{
  ℕ, zero, suc, Bytes, false, ◌||◌, ◌+◌, ◌^◌, ◌≤◌, ◌<◌, ◌≡◌, refl, arith, List, [], ◌∷◌, ◌++◌,
  append_assoc, ◌==◌, nat_eq, ltb, if◌then◌else◌, length, take, drop, Result, ok, err, ◌>>=◌, ◌>>◌,
  guard, io, invalid_input, to_be_bytes, from_be_bytes, length-to_be_bytes, from-to_be_bytes4,
  length-append, take_exact, drop_exact, All, leb, le→leb, lt→ltb, append-nil,
}

unfoldable pub validate_stream_type : ℕ → Result (Unit {0})
validate_stream_type t =
    if t == 1 || t == 2 || t == 3 || t == 4
    then ok tt
    else if t == 5
    then err (invalid_input "bulk stream reserved")
    else err (invalid_input "unknown stream type")

unfoldable pub write_stream_type : ℕ → Bytes → Result Bytes
unfolding validate_stream_type
write_stream_type t w = validate_stream_type t >> ok (w ++ t ∷ [])

unfoldable pub read_exact : ℕ → Bytes → Result (Bytes × Bytes)
read_exact n r = if ltb (length r) n then err io else ok (take n r, drop n r)

unfoldable pub read_stream_type : Bytes → Result (ℕ × Bytes)
unfolding validate_stream_type
read_stream_type [] = err io
read_stream_type (t ∷ r) = validate_stream_type t >> ok (t, r)

unfoldable pub write_frame : Bytes → Bytes → Result Bytes
write_frame payload w =
    if ltb (length payload) (2 ^ 32)
    then ok (w ++ (to_be_bytes 4 (length payload) ++ payload))
    else err (invalid_input "frame length")

unfoldable pub read_frame : ℕ → Bytes → Result (Bytes × Bytes)
unfolding read_exact
read_frame max_size r = read_exact 4 r >>= λ len_buf.
    guard (leb (from_be_bytes len_buf.0) max_size) (invalid_input "frame too large")
    >> read_exact (from_be_bytes len_buf.0) len_buf.1

-- several calls of the two functions
unfoldable pub write_frames : List Bytes → Bytes → Result Bytes
write_frames [] w = ok w
write_frames (payload ∷ payloads) w = write_frame payload w >>= λ v. write_frames payloads v

unfoldable pub read_frames : ℕ → ℕ → Bytes → Result (List Bytes × Bytes)
read_frames max_size zero r = ok ([], r)
read_frames max_size (suc n) r = read_frame max_size r >>= λ first.
    read_frames max_size n first.1 >>= λ rest. ok (first.0 ∷ rest.0, rest.1)

abbrev frame : Bytes → Bytes
frame payload = to_be_bytes 4 (length payload) ++ payload

abbrev frames : List Bytes → Bytes
frames [] = []
frames (payload ∷ payloads) = frame payload ++ frames payloads

short : (n m : ℕ) → ltb (n + m) n ≡ false
short n m = ground arith

read_exact-append :
    (part rest : Bytes) (n : ℕ) → length part ≡ n → read_exact n (part ++ rest) ≡ ok (part, rest)
unfolding read_exact
read_exact-append part rest n h =
    rw
      (
        take_exact n part rest h,
        drop_exact n part rest h,
        length-append part rest,
        h,
        short n (length rest),
      )
      refl

read_frame-frame :
    (max_size : ℕ) (payload rest : Bytes)
    → length payload ≤ max_size
    → max_size < 2 ^ 32
    → read_frame max_size (frame payload ++ rest) ≡ ok (payload, rest)
unfolding read_frame
read_frame-frame max_size payload rest h k =
    let n = length payload in
    rw
      (
        append_assoc (to_be_bytes 4 n) payload rest,
        read_exact-append (to_be_bytes 4 n) (payload ++ rest) 4 (length-to_be_bytes 4 n),
        from-to_be_bytes4 n (omega arith),
        le→leb n max_size h,
        read_exact-append payload rest n refl,
      )
      refl

read_frames-frames :
    (max_size : ℕ) (payloads : List Bytes) (rest : Bytes)
    → All (λ payload. length payload ≤ max_size) payloads
    → max_size < 2 ^ 32
    → read_frames max_size (length payloads) (frames payloads ++ rest) ≡ ok (payloads, rest)
unfolding read_frames
read_frames-frames max_size [] rest h k = refl
read_frames-frames max_size (payload ∷ payloads) rest h k =
    rw
      (
        append_assoc (frame payload) (frames payloads) rest,
        read_frame-frame max_size payload (frames payloads ++ rest) h.0 k,
        read_frames-frames max_size payloads rest h.1 k,
      )
      refl

write_frames-frames :
    (max_size : ℕ) (payloads : List Bytes) (w : Bytes)
    → All (λ payload. length payload ≤ max_size) payloads
    → max_size < 2 ^ 32
    → write_frames payloads w ≡ ok (w ++ frames payloads)
unfolding write_frames write_frame
write_frames-frames max_size [] w h k = rw (append-nil w) refl
write_frames-frames max_size (payload ∷ payloads) w h k =
    rw
      (
        lt→ltb (length payload) (2 ^ 32) (omega arith),
        write_frames-frames max_size payloads (w ++ frame payload) h.1 k,
        append_assoc w (frame payload) (frames payloads),
      )
      refl

-- Payloads that keep to a limit of less than 2^32 bytes are all written, and a reader with that
-- limit reads the same payloads from the stream and leaves what was behind them.
pub read-write_frames :
    (max_size : ℕ) (payloads : List Bytes) (rest : Bytes)
    → All (λ payload. length payload ≤ max_size) payloads
    → max_size < 2 ^ 32
    → (stream : Bytes) × (write_frames payloads [] ≡ ok stream)
      × (read_frames max_size (length payloads) (stream ++ rest) ≡ ok (payloads, rest))
read-write_frames max_size payloads rest h k = (
  frames payloads,
  write_frames-frames max_size payloads [] h k,
  read_frames-frames max_size payloads rest h k,
)
