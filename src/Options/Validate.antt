-- ===== src/Options/Validate.antt =====
-- xhttp/validate.go: the checks that NewClient and NewServer make of a configuration.
pub mod Rules
pub mod Keys
pub mod ServicePath
pub mod Accepts
use sing_xhttp.Common.{
  ℕ, ◌≡◌, Bool, true, false, ◌||◌, ◌&&◌, not, Option, none, some, List, [], ◌∷◌, leb, ltb, ◌==◌,
  if◌then◌else◌,
}
use sing_xhttp.Common.Int.{ℤ, pos, pos_part, neg_part, ltb_ℤ, is_negative}
use sing_xhttp.Common.Text.{Bytes, String, str_eq}
use sing_xhttp.Common.Strings.{one_of, trim_prefix, trim_suffix, split}
use sing_xhttp.Options.{Range, XmuxConfig, Options, is_zero}

-- The error messages, by what they say.
pub data ConfigError : Type 0 where
  unsupported_mode : String → ConfigError
  grpc_needs_streaming_mode grpc_needs_headers grpc_needs_post grpc_needs_body : ConfigError
  grpc_bad_path grpc_query_padding : ConfigError
  bad_session_placement bad_seq_placement bad_padding_placement bad_padding_method :
      String → ConfigError
  shared_key : String → String → ConfigError
  bad_uplink_placement : String → ConfigError
  uplink_key_missing : ConfigError
  range_negative range_reversed : String → ConfigError
  header_bytes_negative buffered_posts_negative : ConfigError

-- `if bad { return err }` before the rest of the checks; `none` is a nil error.
abbrev pub refuse : Bool → ConfigError → Option ConfigError → Option ConfigError
refuse bad e rest = if bad then some e else rest

-- `if err := …; err != nil { return err }` before the rest of the checks.
infixr 30 ◌then_check◌
abbrev pub ◌then_check◌ : Option ConfigError → Option ConfigError → Option ConfigError
none then_check rest = rest
some e then_check rest = some e

-- The texts that a field may hold.
abbrev pub modes : List String
modes = "" ∷ "packet-up" ∷ "stream-up" ∷ "stream-one" ∷ "stream-down" ∷ "auto" ∷ []

abbrev pub meta_placements : List String
meta_placements = "" ∷ "path" ∷ "query" ∷ "header" ∷ "cookie" ∷ []

abbrev pub padding_placements : List String
padding_placements = "" ∷ "query" ∷ "header" ∷ "cookie" ∷ "query-in-header" ∷ []

abbrev pub uplink_placements : List String
uplink_placements = "" ∷ "body" ∷ "header" ∷ "cookie" ∷ "auto" ∷ []

abbrev pub streaming_modes : List String
streaming_modes = "stream-up" ∷ "stream-one" ∷ "auto" ∷ []

abbrev pub padding_methods : List String
padding_methods = "" ∷ "repeat-x" ∷ "tokenish" ∷ []

abbrev pub keyed_placements : List String
keyed_placements = "header" ∷ "cookie" ∷ "auto" ∷ []

abbrev pub post_methods : List String
post_methods = "" ∷ "POST" ∷ []

abbrev pub body_placements : List String
body_placements = "" ∷ "body" ∷ []

-- validMetaPlacement, validPaddingPlacement, validUplinkDataPlacement
unfoldable pub valid_meta_placement : String → Bool
valid_meta_placement p = one_of p meta_placements

unfoldable pub valid_padding_placement : String → Bool
valid_padding_placement p = one_of p padding_placements

unfoldable pub valid_uplink_data_placement : String → Bool
valid_uplink_data_placement p = one_of p uplink_placements

-- validRange
unfoldable pub valid_range : String → Option Range → Option ConfigError
valid_range name none = none
valid_range name (some r) =
    refuse (is_negative r.from || is_negative r.to) (range_negative name)
      (refuse (not (is_zero r.to) && ltb_ℤ r.to r.from) (range_reversed name) none)

-- The loops over a list of named ranges.
unfoldable pub valid_ranges : List (String × Option Range) → Option ConfigError
valid_ranges [] = none
valid_ranges ((name, r) ∷ rs) = valid_range name r then_check valid_ranges rs

-- orPath
unfoldable pub or_path : String → String
or_path p = if str_eq p "" then "path" else p

-- defaultKey, of meta.go
unfoldable pub default_key : String → String → String → String → String
default_key set placement header querycookie =
    if not (str_eq set "")
    then set
    else (if str_eq placement "header"
        then header
        else (if one_of placement ("query" ∷ "cookie" ∷ []) then querycookie else ""))

-- A byte that may stand in a part of a service name, at the part's start or later. The code looks
-- at runes; a byte of a rune beyond ASCII fits none of the cases, and neither does the rune.
abbrev pub name_byte : Bool → ℕ → Bool
name_byte later c =
    leb b'a' c && leb c b'z'
    || (leb b'A' c && leb c b'Z' || (c == b'_' || later && (leb b'0' c && leb c b'9')))

unfoldable pub name_bytes : Bool → Bytes → Bool
name_bytes later [] = true
name_bytes later (c ∷ cs) = name_byte later c && name_bytes true cs

unfoldable pub name_parts : List Bytes → Bool
unfolding name_bytes
name_parts [] = true
name_parts ([] ∷ ps) = false
name_parts ((c ∷ cs) ∷ ps) = name_bytes false (c ∷ cs) && name_parts ps

abbrev pub is_root : Bytes → Bool
is_root [] = true
is_root (c ∷ []) = c == b'/'
is_root _ = false

-- validGRPCServicePath
unfoldable pub valid_grpc_service_path : Bytes → Bool
unfolding name_parts trim_prefix trim_suffix split
valid_grpc_service_path path =
    if is_root path
    then true
    else name_parts (split b'.' (trim_suffix (trim_prefix path (b'/' ∷ [])) b'/'))

-- The parts of Validate, in its order.
unfoldable pub check_mode : Options → Option ConfigError
check_mode o = refuse (not (one_of o.mode modes)) (unsupported_mode o.mode) none

unfoldable pub check_grpc : Options → Option ConfigError
check_grpc o =
    if o.grpc_framing
    then refuse (not (one_of o.mode streaming_modes)) grpc_needs_streaming_mode (
        refuse o.no_grpc_header grpc_needs_headers (
          refuse (not (one_of o.method post_methods)) grpc_needs_post (
            refuse (not (one_of o.uplink_data_placement body_placements)) grpc_needs_body (
              refuse (not (valid_grpc_service_path o.path)) grpc_bad_path (
                refuse (o.x_padding_obfs_mode && str_eq o.x_padding_placement "query")
                  grpc_query_padding none)))))
    else none

-- The key under which the session and the sequence number would both stand.
unfoldable pub session_key_of : Options → String
session_key_of o = default_key o.session_key (or_path o.session_placement) "X-Session" "x_session"

unfoldable pub seq_key_of : Options → String
seq_key_of o = default_key o.seq_key (or_path o.seq_placement) "X-Seq" "x_seq"

unfoldable pub check_placements : Options → Option ConfigError
check_placements o =
    refuse (not (valid_meta_placement o.session_placement))
      (bad_session_placement o.session_placement)
      (refuse (not (valid_meta_placement o.seq_placement)) (bad_seq_placement o.seq_placement) (
        refuse
          (not (str_eq (or_path o.session_placement) "path")
            && (str_eq (or_path o.session_placement) (or_path o.seq_placement)
                && str_eq (session_key_of o) (seq_key_of o)))
          (shared_key (or_path o.session_placement) (session_key_of o)) none))

unfoldable pub check_padding : Options → Option ConfigError
check_padding o =
    if o.x_padding_obfs_mode
    then refuse (not (valid_padding_placement o.x_padding_placement))
        (bad_padding_placement o.x_padding_placement)
        (refuse (not (one_of o.x_padding_method padding_methods))
          (bad_padding_method o.x_padding_method) none)
    else none

unfoldable pub check_uplink : Options → Option ConfigError
check_uplink o =
    refuse (not (valid_uplink_data_placement o.uplink_data_placement))
      (bad_uplink_placement o.uplink_data_placement)
      (refuse (one_of o.uplink_data_placement keyed_placements && str_eq o.uplink_data_key "")
        uplink_key_missing none)

unfoldable pub xmux_ranges : Option XmuxConfig → List (String × Option Range)
xmux_ranges none = []
xmux_ranges (some x) =
    ("xmux.max_concurrency", x.max_concurrency)
    ∷ ("xmux.max_connections", x.max_connections)
    ∷ ("xmux.c_max_reuse_times", x.c_max_reuse_times)
    ∷ ("xmux.h_max_request_times", x.h_max_request_times)
    ∷ ("xmux.h_max_reusable_secs", x.h_max_reusable_secs)
    ∷ []

unfoldable pub check_ranges : Options → Option ConfigError
check_ranges o =
    valid_ranges
      (("uplink_chunk_size", o.uplink_chunk_size) ∷ ("session_id_length", o.session_id_length) ∷ [])
    then_check refuse (is_negative o.server_max_header_bytes) header_bytes_negative none
    then_check valid_ranges (
        ("x_padding_bytes", o.x_padding_bytes)
        ∷ ("sc_max_each_post_bytes", o.sc_max_each_post_bytes)
        ∷ ("sc_min_posts_interval_ms", o.sc_min_posts_interval_ms)
        ∷ ("sc_stream_up_server_secs", o.sc_stream_up_server_secs)
        ∷ [])
    then_check refuse (is_negative o.sc_max_buffered_posts) buffered_posts_negative none
    then_check valid_ranges (xmux_ranges o.xmux)

-- Options.Validate
unfoldable pub validate : Options → Option ConfigError
validate o =
    check_mode o
    then_check check_grpc o
    then_check check_placements o
    then_check check_padding o
    then_check check_uplink o
    then_check check_ranges o
