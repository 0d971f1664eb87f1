-- ===== src/Codec.antt =====
-- xhttp/meta.go: the wire-format choices, made once from the configuration.
pub mod Request
pub mod Meta
pub mod Settings
pub mod Clash
pub mod Charset
pub mod Cookie
pub mod Padding
pub mod Url
pub mod Payload
pub mod Base64
pub mod Tests
use sing_xhttp.Common.{
  ℕ, Bool, true, false, ◌||◌, not, Option, none, some, List, [], ◌∷◌, ◌++◌, ◌==◌, if◌then◌else◌,
}
use sing_xhttp.Common.Int.{ℤ, pos, ltb_ℤ}
use sing_xhttp.Common.Text.{Bytes, String, str_eq}
use sing_xhttp.Common.Strings.{before, ends_with}
use sing_xhttp.Options.{
  Range, Options, range, is_zero, or_default, or_mode_default, defaults_for_mode,
  default_uplink_chunk_size,
}
use sing_xhttp.Options.Validate.{default_key}

pub record Codec : Type 0 where
  pub base_path : Bytes
  pub session_placement : String
  pub session_key : String
  pub seq_placement : String
  pub seq_key : String
  pub xpad_obfs : Bool
  pub xpad_placement : String
  pub xpad_key : String
  pub xpad_header : String
  pub xpad_method : String
  pub xpad_range : Range
  pub uplink_data_placement : String
  pub uplink_data_key : String
  pub uplink_chunk_size : Range
  pub max_each_post_bytes : Range
  pub session_id_table : String
  pub session_id_length : Range

abbrev starts_with_slash : Bytes → Bool
starts_with_slash [] = false
starts_with_slash (c ∷ cs) = c == b'/'

abbrev pub with_slash : Bytes → Bytes
with_slash p = if starts_with_slash p then p else b'/' ∷ p

abbrev ended_by_slash : Bytes → Bytes
ended_by_slash p = if ends_with p b'/' then p else p ++ (b'/' ∷ [])

-- normalizePath
unfoldable pub normalize_path : Bytes → Bytes
normalize_path p = ended_by_slash (with_slash (before b'?' p))

-- `if s == "" { s = default }`
abbrev pub or_text : String → String → String
or_text s default = if str_eq s "" then default else s

-- The last lines of newCodec: the chunk size is at least 64.
unfoldable pub at_least_64 : Range → Range
at_least_64 r =
    if ltb_ℤ r.from (pos 64)
    then record { from = pos 64; to = if ltb_ℤ r.to (pos 64) then pos 64 else r.to }
    else r

unfoldable pub chunk_size_of : Options → String → Range → Range
chunk_size_of o placement max_each =
    let set = or_default o.uplink_chunk_size 0 0 in
    at_least_64 (if is_zero set.to then default_uplink_chunk_size placement max_each else set)

-- newCodec
unfoldable pub new_codec : Options → Codec
new_codec o =
    let md = defaults_for_mode o.mode in
    let session_placement = or_text o.session_placement "path" in
    let seq_placement = or_text o.seq_placement "path" in
    let uplink_placement = or_text o.uplink_data_placement "body" in
    let max_each = or_mode_default o.sc_max_each_post_bytes md.max_each_post_bytes in
    let obfs = o.x_padding_obfs_mode in
    record {
      base_path = normalize_path o.path;
      session_placement = session_placement;
      session_key = default_key o.session_key session_placement "X-Session" "x_session";
      seq_placement = seq_placement;
      seq_key = default_key o.seq_key seq_placement "X-Seq" "x_seq";
      xpad_obfs = obfs;
      xpad_placement =
          if obfs then or_text o.x_padding_placement "header" else o.x_padding_placement;
      xpad_key = if obfs then or_text o.x_padding_key "x_padding" else o.x_padding_key;
      xpad_header = if obfs then or_text o.x_padding_header "X-Padding" else o.x_padding_header;
      xpad_method = if obfs then or_text o.x_padding_method "repeat-x" else o.x_padding_method;
      xpad_range = or_mode_default o.x_padding_bytes md.x_padding_bytes;
      uplink_data_placement = uplink_placement;
      uplink_data_key = o.uplink_data_key;
      uplink_chunk_size = chunk_size_of o uplink_placement max_each;
      max_each_post_bytes = max_each;
      session_id_table = o.session_id_table;
      session_id_length = or_default o.session_id_length 0 0;
    }
