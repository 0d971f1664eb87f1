-- ===== src/H2/HeaderBlock/Frames.antt =====
-- The frames of a header block, as a reader of the wire sees them.
use sing_xhttp.Common.{
  ℕ, zero, suc, ◌+◌, ◌-◌, ◌%◌, ◌^◌, ◌≤◌, ◌<◌, ◌≡◌, refl, ap, sym, ◌∙◌, subst, true, false, some,
  List, [], ◌∷◌, ◌++◌, ◌==◌, leb, ltb, if◌then◌else◌, length, take, drop, length-append,
  length-take, length-drop, take-append-drop, replicate, length-replicate, min, arith, Bool-cases,
  append-nil, inl, inr,
}
use sing_xhttp.Common.Text.{Bytes}
use sing_xhttp.H2.Frame.{
  too_long, incomplete, complete, buffered_frame_len, build_h2_frame, byte_at, stream_id_of,
  max_frame_len, has_flag, set_flag, clear_flag, end_headers, padded, with_priority, headers_frame,
  continuation_frame,
}
use sing_xhttp.H2.Frame.Trip.{build-read}
use sing_xhttp.H2.HeaderBlock.{
  OutgoingHeaderBlock, continuation_frames, first_payload, build_header_frames,
}

pub record Frame : Type 0 where
  pub frame_type : ℕ
  pub flags : ℕ
  pub stream_id : ℕ
  pub payload : Bytes

-- The frames of a buffer, up to the first that is not complete.
unfoldable pub read_frames : ℕ → Bytes → List Frame
read_frames zero buffer = []
read_frames (suc fuel) buffer = elim (buffered_frame_len buffer) [
  | too_long ↦ []
  | incomplete ↦ []
  | complete n ↦
      let frame : Frame = record {
        frame_type = byte_at buffer 3;
        flags = byte_at buffer 4;
        stream_id = stream_id_of buffer;
        payload = drop 9 (take n buffer);
      } in
      frame ∷ read_frames fuel (drop n buffer)
]

-- The rest of a fragment in CONTINUATION frames of at most `max` bytes, the last of which, and no
-- other, ends the block.
abbrev pub IsTail : ℕ → ℕ → Bytes → List Frame → Type 0
IsTail max id remaining [] = remaining ≡ []
IsTail max id remaining (f ∷ fs) =
    (f.frame_type ≡ continuation_frame)
    × (f.stream_id ≡ id)
    × (0 < length f.payload)
    × (length f.payload ≤ max)
    × (f.flags ≡ (if leb (length fs) 0 then end_headers else 0))
    × ((rest : Bytes) × (remaining ≡ f.payload ++ rest) × IsTail max id rest fs)

read_complete :
    (fuel n : ℕ) (b : Bytes)
    → buffered_frame_len b ≡ complete n
    → read_frames (suc fuel) b
      ≡ record {
        frame_type = byte_at b 3;
        flags = byte_at b 4;
        stream_id = stream_id_of b;
        payload = drop 9 (take n b);
      }
        ∷ read_frames fuel (drop n b)
unfolding read_frames
read_complete fuel n b e = rw (e, read_frames)

read-build :
    (fuel t f id : ℕ) (payload rest : Bytes)
    → length payload ≤ max_frame_len
    → read_frames (suc fuel) (build_h2_frame t f id payload ++ rest)
      ≡ record { frame_type = t; flags = f; stream_id = id % 2 ^ 31; payload = payload }
        ∷ read_frames fuel rest
read-build fuel t f id payload rest h =
    let (len, kind, flags, stream, body, behind) = build-read t f id payload rest h in
    read_complete fuel (9 + length payload) (build_h2_frame t f id payload ++ rest) len ∙ (λ i.
      record { frame_type = kind i; flags = flags i; stream_id = stream i; payload = body i }
      ∷ read_frames fuel (behind i))

no_frames : (fuel : ℕ) → read_frames fuel [] ≡ []
unfolding read_frames buffered_frame_len
no_frames zero = refl
no_frames (suc fuel) = refl

tail_empty :
    (max id : ℕ) (rest : Bytes) (fs : List Frame)
    → IsTail max id rest fs
    → leb (length rest) 0 ≡ leb (length fs) 0
tail_empty max id rest [] h = rw h
tail_empty max id rest (f ∷ fs) h =
    let (tail, cut, _) = h.5 in
    let lengths = ap length cut ∙ length-append f.payload tail in ground (arith, lengths, h.2)

module _ (max id : ℕ) (low : 0 < max) (high : max ≤ max_frame_len) (small : id < 2 ^ 31) where
  -- One frame in front of a tail.
  cons-IsTail :
      (fuel budget : ℕ) (remaining : Bytes)
      → 0 < length remaining
      → let n = min (length remaining) max in
        let flags = if n == length remaining then end_headers else 0 in
        let rest = drop n remaining in
        IsTail max id rest (read_frames budget (continuation_frames fuel max id rest))
        → IsTail max id remaining (
            read_frames (suc budget) (
              build_h2_frame continuation_frame flags id (take n remaining)
              ++ continuation_frames fuel max id rest))
  cons-IsTail fuel budget remaining pos h =
      let n = min (length remaining) max in
      let part = take n remaining in
      let rest = drop n remaining in
      let behind = continuation_frames fuel max id rest in
      let size : length part ≡ n = omega (arith, length-take n remaining) in
      let flags = if n == length remaining then end_headers else 0 in
      subst (IsTail max id remaining)
        (sym (read-build budget continuation_frame flags id part behind (omega (arith, size))))
        (
          refl,
          omega arith,
          omega (arith, size),
          omega (arith, size),
          ground (
            arith,
            tail_empty max id rest (read_frames budget behind) h,
            length-drop n remaining,
          ),
          (rest, sym (take-append-drop n remaining), h),
        )

  IsTail-read :
      (fuel budget : ℕ) (remaining : Bytes)
      → length remaining ≤ fuel
      → length remaining ≤ budget
      → IsTail max id remaining (read_frames budget (continuation_frames fuel max id remaining))
  unfolding continuation_frames
  IsTail-read zero budget [] h k = subst (IsTail max id []) (sym (no_frames budget)) refl
  IsTail-read (suc fuel) budget [] h k = subst (IsTail max id []) (sym (no_frames budget)) refl
  IsTail-read zero budget (b ∷ bs) h k = absurd (omega arith)
  IsTail-read (suc fuel) zero (b ∷ bs) h k = absurd (omega arith)
  IsTail-read (suc fuel) (suc budget) (b ∷ bs) h k =
      cons-IsTail fuel budget (b ∷ bs) (omega arith) (
        IsTail-read fuel budget (drop (min (length (b ∷ bs)) max) (b ∷ bs))
          (omega (arith, length-drop (min (length (b ∷ bs)) max) (b ∷ bs)))
          (omega (arith, length-drop (min (length (b ∷ bs)) max) (b ∷ bs))))

abbrev pub fixed_size : OutgoingHeaderBlock → ℕ
fixed_size block = length block.priority + (if has_flag block.flags padded then 1 else 0)

-- A HEADERS frame with the beginning of a fragment, and CONTINUATION frames with the rest of it. No
-- payload is longer than `max`, and the last frame, and no other, ends the block.
pub record IsBlock (max : ℕ) (block : OutgoingHeaderBlock) (fragment : Bytes) (frames : List Frame)
    : Type 0 where
  pub head : Frame
  pub tail : List Frame
  pub part : Bytes
  pub rest : Bytes
  pub frames_are : frames ≡ head ∷ tail
  pub fragment_is : fragment ≡ part ++ rest
  pub head_type : head.frame_type ≡ headers_frame
  pub head_stream : head.stream_id ≡ block.stream_id
  pub head_payload : head.payload ≡ first_payload block part
  pub head_size : length head.payload ≤ max
  pub head_ends : has_flag head.flags end_headers ≡ leb (length tail) 0
  pub tail_is : IsTail max block.stream_id rest tail

flag_set : (f : ℕ) → has_flag (set_flag f end_headers) end_headers ≡ true
unfolding set_flag
flag_set f = ground arith

flag_cleared : (f : ℕ) → has_flag (clear_flag f end_headers) end_headers ≡ false
unfolding clear_flag
flag_cleared f = ground arith

length-first_payload :
    (block : OutgoingHeaderBlock) (part : Bytes)
    → length (first_payload block part) ≡ fixed_size block + length part + block.pad_length
unfolding first_payload
length-first_payload block part =
    let zero_byte : ℕ = 0 in
    let padding = length-replicate block.pad_length zero_byte in
    let body = length-append part (replicate block.pad_length zero_byte) in
    let all = length-append block.priority (part ++ replicate block.pad_length zero_byte) in
    elim (Bool-cases (has_flag block.flags padded)) [
      | inl e ↦ rw e (omega (arith, padding, body, all))
      | inr e ↦ rw e (omega (arith, padding, body, all))
    ]

module _ (max : ℕ) (block : OutgoingHeaderBlock) (fragment : Bytes) (low : 0 < max)
    (high : max ≤ max_frame_len) (small : block.stream_id < 2 ^ 31)
    (fits : fixed_size block + block.pad_length ≤ max) where
  abbrev first_len : ℕ
  first_len = min (length fragment) (max - fixed_size block - block.pad_length)

  abbrev remaining : Bytes
  remaining = drop first_len fragment

  abbrev payload : Bytes
  payload = first_payload block (take first_len fragment)

  payload_size : length payload ≤ max
  payload_size =
      omega (
        arith,
        length-first_payload block (take first_len fragment),
        length-take first_len fragment,
      )

  -- The frames of a HEADERS frame with the given flags and what follows it.
  IsBlock-from :
      (flags : ℕ)
      → has_flag flags end_headers ≡ leb (length remaining) 0
      → IsBlock max block fragment (
          read_frames (suc (length fragment)) (
            build_h2_frame headers_frame flags block.stream_id payload
            ++ continuation_frames (length remaining) max block.stream_id remaining))
  IsBlock-from flags ends =
      let behind = continuation_frames (length remaining) max block.stream_id remaining in
      let tail = read_frames (length fragment) behind in
      let tail_ok =
        IsTail-read max block.stream_id low high small (length remaining) (length fragment)
          remaining (omega arith) (omega (arith, length-drop first_len fragment)) in
      record {
        head = record {
          frame_type = headers_frame;
          flags = flags;
          stream_id = block.stream_id % 2 ^ 31;
          payload = payload;
        };
        tail = tail;
        part = take first_len fragment;
        rest = remaining;
        frames_are =
            read-build (length fragment) headers_frame flags block.stream_id payload behind
              (omega (arith, payload_size));
        fragment_is = sym (take-append-drop first_len fragment);
        head_type = refl;
        head_stream = omega arith;
        head_payload = refl;
        head_size = payload_size;
        head_ends = ends ∙ tail_empty max block.stream_id remaining tail tail_ok;
        tail_is = tail_ok;
      }

  abbrev head_flags : ℕ
  head_flags =
      if leb (length block.priority) 0
      then clear_flag block.flags with_priority
      else set_flag block.flags with_priority

  fits_test : ltb max (fixed_size block + block.pad_length) ≡ false
  fits_test = ground (arith, fits)

  built_alone :
      leb (length remaining) 0 ≡ true
      → build_header_frames max block fragment
        ≡ some
            (build_h2_frame headers_frame (set_flag head_flags end_headers) block.stream_id payload)
  unfolding build_header_frames
  built_alone e = rw (fits_test, e, build_header_frames)

  built_more :
      leb (length remaining) 0 ≡ false
      → build_header_frames max block fragment
        ≡ some (
            build_h2_frame headers_frame (clear_flag head_flags end_headers) block.stream_id payload
            ++ continuation_frames (length remaining) max block.stream_id remaining)
  unfolding build_header_frames
  built_more e = rw (fits_test, e, build_header_frames)

  no_continuation :
      (r : Bytes)
      → leb (length r) 0 ≡ true
      → continuation_frames (length r) max block.stream_id r ≡ []
  unfolding continuation_frames
  no_continuation [] e = refl
  no_continuation (x ∷ r) e = absurd (ground arith)

  -- When the fixed parts fit into one frame, the block is written, and a reader of the wire sees
  -- the whole fragment in a HEADERS frame and CONTINUATION frames that the peer accepts, the last
  -- of which, and no other, ends the block. The frame size is between 1 and 2^24 - 1, the stream is
  -- below 2^31.
  pub header_frames-IsBlock :
      (out : Bytes) × (build_header_frames max block fragment ≡ some out)
      × IsBlock max block fragment (read_frames (suc (length fragment)) out)
  header_frames-IsBlock = elim (Bool-cases (leb (length remaining) 0)) [
    | inl e ↦
        let alone =
          build_h2_frame headers_frame (set_flag head_flags end_headers) block.stream_id payload in
        (
          alone,
          built_alone e,
          subst (λ o. IsBlock max block fragment (read_frames (suc (length fragment)) o))
              (ap (◌++◌ alone) (no_continuation remaining e) ∙ append-nil alone)
              (IsBlock-from (set_flag head_flags end_headers) (flag_set head_flags ∙ sym e)),
        )
    | inr e ↦ (
      build_h2_frame headers_frame (clear_flag head_flags end_headers) block.stream_id payload
          ++ continuation_frames (length remaining) max block.stream_id remaining,
      built_more e,
      IsBlock-from (clear_flag head_flags end_headers) (flag_cleared head_flags ∙ sym e),
    )
  ]
