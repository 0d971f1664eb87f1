-- ===== src/H2/HeaderBlock.antt =====
-- xhttp/h2_conn.go: a header block, from the frames of the client to the frames on the wire. The
-- HPACK decoder and encoder are golang.org/x/net/http2/hpack: parameters with their own states.
pub mod Frames
use sing_xhttp.Common.{
  ℕ, zero, suc, ◌+◌, ◌-◌, ◌*◌, ◌%◌, ◌^◌, Bool, true, false, Option, none, some, List, [], ◌∷◌, ◌++◌,
  ◌==◌, leb, ltb, not, ◌&&◌, ◌||◌, if◌then◌else◌, length, take, drop, replicate, min,
}
use sing_xhttp.Common.Text.{Bytes}
use sing_xhttp.H2.Frame.{
  build_h2_frame, put_uint32, has_flag, set_flag, clear_flag, end_stream, end_headers, padded,
  with_priority, headers_frame, continuation_frame, max_header_block,
}
use sing_xhttp.H2.VarInt.{hpack_table_size_updates}
use sing_xhttp.H2.HeaderOrder.{HeaderField, chromium_header_order}
use sing_xhttp.H2.Streams.{Streams, note_local_headers, parent_stream}

-- hpack.Decoder and hpack.Encoder
pub record Hpack (D E : Type 0) : Type 0 where
  pub decode_full : D → Bytes → D × Option (List HeaderField)
  pub set_max_dynamic_table_size : E → ℕ → E
  pub write_field : E → HeaderField → E × Bytes

-- outgoingHeaderBlock
pub record OutgoingHeaderBlock : Type 0 where
  pub stream_id : ℕ
  pub flags : ℕ
  pub fragment : Bytes
  pub pad_length : ℕ
  pub priority : Bytes
  pub first : Bool

-- The CONTINUATION frames behind the first frame; each takes at least one byte, so the length of
-- what remains is enough fuel.
unfoldable pub continuation_frames : ℕ → ℕ → ℕ → Bytes → Bytes
continuation_frames zero max id remaining = []
continuation_frames (suc fuel) max id [] = []
continuation_frames (suc fuel) max id (b ∷ bs) =
    let remaining = b ∷ bs in
    let chunk_len = min (length remaining) max in
    let flags = if chunk_len == length remaining then end_headers else 0 in
    build_h2_frame continuation_frame flags id (take chunk_len remaining)
    ++ continuation_frames fuel max id (drop chunk_len remaining)

-- The payload of the first frame: padding length, priority, fragment, padding.
unfoldable pub first_payload : OutgoingHeaderBlock → Bytes → Bytes
first_payload block part =
    (if has_flag block.flags padded then block.pad_length ∷ [] else [])
    ++ (block.priority ++ (part ++ replicate block.pad_length 0))

-- buildHeaderFrames, for the frame size that the peer allows.
unfoldable pub build_header_frames : ℕ → OutgoingHeaderBlock → Bytes → Option Bytes
unfolding first_payload continuation_frames
build_header_frames max block fragment =
    let fixed_size = length block.priority + (if has_flag block.flags padded then 1 else 0) in
    if ltb max (fixed_size + block.pad_length)
    then none
    else (let first_len = min (length fragment) (max - fixed_size - block.pad_length) in
        let payload = first_payload block (take first_len fragment) in
        let flags =
          if leb (length block.priority) 0
          then clear_flag block.flags with_priority
          else set_flag block.flags with_priority in
        let remaining = drop first_len fragment in
        if leb (length remaining) 0
        then some
            (build_h2_frame headers_frame (set_flag flags end_headers) block.stream_id payload)
        else some (
            build_h2_frame headers_frame (clear_flag flags end_headers) block.stream_id payload
            ++ continuation_frames (length remaining) max block.stream_id remaining))

-- A payload behind its padding length: that length, and the rest without the padding.
unfoldable pub unpad : ℕ → Bytes → Option (ℕ × Bytes)
unpad flags payload =
    if has_flag flags padded
    then (elim payload [
      | [] ↦ none
      | pad ∷ rest ↦
          if ltb (length rest) pad then none else some (pad, take (length rest - pad) rest)
    ])
    else some (0, payload)

-- A payload behind its priority: that priority, and the rest.
unfoldable pub take_priority : ℕ → Bytes → Option (Bytes × Bytes)
take_priority flags rest =
    if has_flag flags with_priority
    then (if ltb (length rest) 5 then none else some (take 5 rest, drop 5 rest))
    else some ([], rest)

-- The priority that Chromium gives to a stream it opens: exclusive, weight 147.
unfoldable pub default_priority : ℕ → Bytes
unfolding put_uint32
default_priority parent = put_uint32 (parent % 2 ^ 31 + 2 ^ 31) ++ (146 ∷ [])
