-- ===== src/H2/Frame.antt =====
-- xhttp/h2_conn.go: frames as bytes. A byte is a number below 256.
pub mod Trip
use sing_xhttp.Common.{
  ℕ, ◌+◌, ◌-◌, ◌*◌, ◌/◌, ◌%◌, ◌^◌, Bool, true, false, Option, none, some, List, [], ◌∷◌, ◌++◌, ◌==◌,
  leb, ltb, if◌then◌else◌, length, get_elem?, get_or,
}
use sing_xhttp.Common.Text.{Bytes}

abbrev pub frame_header_len : ℕ
frame_header_len = 9

abbrev pub max_frame_len : ℕ
max_frame_len = 2 ^ 24 - 1

abbrev pub max_header_block : ℕ
max_header_block = 16 * 2 ^ 20

-- Flags are single bits of a byte.
abbrev pub end_stream : ℕ
end_stream = 1

abbrev pub ack : ℕ
ack = 1

abbrev pub end_headers : ℕ
end_headers = 4

abbrev pub padded : ℕ
padded = 8

abbrev pub with_priority : ℕ
with_priority = 32

-- `flags & bit != 0`, `flags | bit`, `flags &^ bit`
abbrev pub has_flag : ℕ → ℕ → Bool
has_flag flags bit = flags / bit % 2 == 1

unfoldable pub set_flag : ℕ → ℕ → ℕ
set_flag flags bit = if has_flag flags bit then flags else flags + bit

unfoldable pub clear_flag : ℕ → ℕ → ℕ
clear_flag flags bit = if has_flag flags bit then flags - bit else flags

-- Frame types of RFC 9113.
abbrev pub data_frame : ℕ
data_frame = 0

abbrev pub headers_frame : ℕ
headers_frame = 1

abbrev pub rst_stream_frame : ℕ
rst_stream_frame = 3

abbrev pub settings_frame : ℕ
settings_frame = 4

abbrev pub continuation_frame : ℕ
continuation_frame = 9

-- binary.BigEndian
unfoldable pub put_uint16 : ℕ → Bytes
put_uint16 n = (n / 2 ^ 8 % 2 ^ 8) ∷ (n % 2 ^ 8) ∷ []

unfoldable pub put_uint32 : ℕ → Bytes
put_uint32 n = (n / 2 ^ 24 % 2 ^ 8) ∷ (n / 2 ^ 16 % 2 ^ 8) ∷ (n / 2 ^ 8 % 2 ^ 8) ∷ (n % 2 ^ 8) ∷ []

-- The byte at an index; the code reads only indices within the slice.
abbrev pub byte_at : Bytes → ℕ → ℕ
byte_at b i = get_or (get_elem? b i) 0

unfoldable pub uint32_at : Bytes → ℕ → ℕ
uint32_at b i =
    byte_at b i * 2 ^ 24
    + byte_at b (i + 1) * 2 ^ 16
    + byte_at b (i + 2) * 2 ^ 8
    + byte_at b (i + 3)

-- `binary.BigEndian.Uint32(frame[5:9]) & 0x7fffffff`
unfoldable pub stream_id_of : Bytes → ℕ
unfolding uint32_at
stream_id_of frame = uint32_at frame 5 % 2 ^ 31

-- buildH2Frame
unfoldable pub build_h2_frame : ℕ → ℕ → ℕ → Bytes → Bytes
unfolding put_uint32
build_h2_frame frame_type flags stream_id payload =
    (length payload / 2 ^ 16 % 2 ^ 8)
      ∷ (length payload / 2 ^ 8 % 2 ^ 8)
      ∷ (length payload % 2 ^ 8)
      ∷ frame_type
      ∷ flags
      ∷ put_uint32 (stream_id % 2 ^ 31)
    ++ payload

pub data FrameLen : Type 0 where
  too_long : FrameLen
  incomplete : FrameLen
  complete : ℕ → FrameLen

-- bufferedH2FrameLen
unfoldable pub buffered_frame_len : Bytes → FrameLen
buffered_frame_len buffer =
    if ltb (length buffer) frame_header_len
    then incomplete
    else (let payload_len =
          byte_at buffer 0 * 2 ^ 16 + byte_at buffer 1 * 2 ^ 8 + byte_at buffer 2 in
        if ltb max_frame_len payload_len
        then too_long
        else (let frame_len = frame_header_len + payload_len in
            if leb frame_len (length buffer) then complete frame_len else incomplete))
