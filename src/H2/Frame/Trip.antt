-- ===== src/H2/Frame/Trip.antt =====
-- A frame that was built is read back.
use sing_xhttp.Common.{
  ℕ, ◌+◌, ◌*◌, ◌/◌, ◌%◌, ◌^◌, ◌≤◌, ◌≡◌, refl, ap, ◌++◌, leb, ltb, if◌then◌else◌, length,
  length-append, take, drop, take-append_length, drop-append_length, arith, ◌∙◌,
}
use sing_xhttp.Common.Text.{Bytes}
use sing_xhttp.H2.Frame.{
  complete, too_long, incomplete, buffered_frame_len, build_h2_frame, max_frame_len, byte_at,
  stream_id_of, uint32_at, put_uint32,
}

pub length-build_h2_frame :
    (t f id : ℕ) (payload : Bytes) → length (build_h2_frame t f id payload) ≡ 9 + length payload
unfolding build_h2_frame put_uint32
length-build_h2_frame t f id payload = omega arith

pub stream_id_of-build :
    (t f id : ℕ) (payload rest : Bytes)
    → stream_id_of (build_h2_frame t f id payload ++ rest) ≡ id % 2 ^ 31
unfolding build_h2_frame put_uint32 stream_id_of uint32_at
stream_id_of-build t f id payload rest = omega arith

split_24 :
    (n : ℕ)
    → n ≤ max_frame_len
    → n / 2 ^ 16 % 2 ^ 8 * 2 ^ 16 + n / 2 ^ 8 % 2 ^ 8 * 2 ^ 8 + n % 2 ^ 8 ≡ n
split_24 n h = omega arith

fits_buffer :
    (n m k : ℕ)
    → n ≡ m
    → m ≤ max_frame_len
    → 9 + m ≤ k
    → (if ltb k 9
        then incomplete
        else (if ltb max_frame_len n
            then too_long
            else (if leb (9 + n) k then complete (9 + n) else incomplete)))
      ≡ complete (9 + m)
fits_buffer n m k e h l = ground arith

buffered-build :
    (t f id : ℕ) (payload rest : Bytes)
    → length payload ≤ max_frame_len
    → buffered_frame_len (build_h2_frame t f id payload ++ rest) ≡ complete (9 + length payload)
unfolding build_h2_frame put_uint32 buffered_frame_len
buffered-build t f id payload rest h =
    fits_buffer _ (length payload) _ (split_24 (length payload) h) h
      (omega (arith, length-append payload rest))

byte_at-build :
    (t f id : ℕ) (payload rest : Bytes)
    → let buffer = build_h2_frame t f id payload ++ rest in
      (byte_at buffer 3 ≡ t) × (byte_at buffer 4 ≡ f)
unfolding build_h2_frame
byte_at-build t f id payload rest = (refl, refl)

drop-build : (t f id : ℕ) (payload : Bytes) → drop 9 (build_h2_frame t f id payload) ≡ payload
unfolding build_h2_frame put_uint32
drop-build t f id payload = refl

pub take-build :
    (t f id : ℕ) (payload rest : Bytes)
    → take (9 + length payload) (build_h2_frame t f id payload ++ rest)
      ≡ build_h2_frame t f id payload
take-build t f id payload rest =
    let b = build_h2_frame t f id payload in
    rw (length-build_h2_frame t f id payload) at (take-append_length b rest)

pub drop_frame-build :
    (t f id : ℕ) (payload rest : Bytes)
    → drop (9 + length payload) (build_h2_frame t f id payload ++ rest) ≡ rest
drop_frame-build t f id payload rest =
    let b = build_h2_frame t f id payload in
    rw (length-build_h2_frame t f id payload) at (drop-append_length b rest)

-- Whatever follows a built frame in the buffer, its length is found, and the type, the flags, the
-- stream and the payload are those it was built of. The payload is at most 2^24 - 1 bytes long.
pub build-read :
    (t f id : ℕ) (payload rest : Bytes)
    → length payload ≤ max_frame_len
    → let buffer = build_h2_frame t f id payload ++ rest in
      (buffered_frame_len buffer ≡ complete (9 + length payload))
      × (byte_at buffer 3 ≡ t)
      × (byte_at buffer 4 ≡ f)
      × (stream_id_of buffer ≡ id % 2 ^ 31)
      × (drop 9 (take (9 + length payload) buffer) ≡ payload)
      × (drop (9 + length payload) buffer ≡ rest)
build-read t f id payload rest h =
    let (type_kept, flags_kept) = byte_at-build t f id payload rest in
    (
      buffered-build t f id payload rest h,
      type_kept,
      flags_kept,
      stream_id_of-build t f id payload rest,
      ap (drop 9) (take-build t f id payload rest) ∙ drop-build t f id payload,
      drop_frame-build t f id payload rest,
    )
