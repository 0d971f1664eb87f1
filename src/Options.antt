-- ===== src/Options.antt =====
-- xhttp/options.go: the configuration record, and the defaults of its ranges.
-- Modes, placements, keys and methods are only compared, so they are native strings; paths are
-- byte strings. `nil` is `none`.
pub mod Tests
pub mod RangeRand
pub mod Validate
use sing_xhttp.Common.{
  ◌*◌, ℕ, ◌≡◌, Bool, true, false, ◌||◌, Option, none, some, List, if◌then◌else◌,
}
use sing_xhttp.Common.Int.{ℤ, pos, pos_part, neg_part, ltb_ℤ}
use sing_xhttp.Common.Text.{Bytes, String, str_eq}

pub record Range : Type 0 where
  pub from : ℤ
  pub to : ℤ

pub record XmuxConfig : Type 0 where
  pub max_concurrency : Option Range
  pub max_connections : Option Range
  pub c_max_reuse_times : Option Range
  pub h_max_request_times : Option Range
  pub h_max_reusable_secs : Option Range
  pub h_keep_alive_period : ℤ

pub record DownloadConfig : Type 0 where
  pub host : String
  pub path : Bytes

pub record Options : Type 0 where
  pub mode : String
  pub host : String
  pub path : Bytes
  pub method : String
  pub headers : List (String × List String)
  pub no_grpc_header : Bool
  pub no_sse_header : Bool
  pub grpc_framing : Bool
  pub x_padding_bytes : Option Range
  pub sc_max_each_post_bytes : Option Range
  pub sc_max_buffered_posts : ℤ
  pub sc_min_posts_interval_ms : Option Range
  pub sc_stream_up_server_secs : Option Range
  pub x_padding_obfs_mode : Bool
  pub x_padding_placement : String
  pub x_padding_key : String
  pub x_padding_header : String
  pub x_padding_method : String
  pub session_placement : String
  pub session_key : String
  pub seq_placement : String
  pub seq_key : String
  pub uplink_data_placement : String
  pub uplink_data_key : String
  pub uplink_chunk_size : Option Range
  pub session_id_table : String
  pub session_id_length : Option Range
  pub server_max_header_bytes : ℤ
  pub download_settings : Option DownloadConfig
  pub xmux : Option XmuxConfig

abbrev pub range : ℕ → ℕ → Range
range from to = record { from = pos from; to = pos to }

abbrev pub is_zero : ℤ → Bool
is_zero (pos n) = if ltb_ℤ (pos 0) (pos n) then false else true
is_zero _ = false

-- (*Range).orModeDefault
unfoldable pub or_mode_default : Option Range → Range → Range
or_mode_default none d = d
or_mode_default (some r) d = if is_zero r.to then d else r

-- (*Range).orDefault
unfoldable pub or_default : Option Range → ℕ → ℕ → Range
or_default none from to = range from to
or_default (some r) from to = if is_zero r.to then range from to else r

pub record ModeDefaults : Type 0 where
  pub max_each_post_bytes : Range
  pub min_posts_interval_ms : Range
  pub max_buffered_posts : ℕ
  pub stream_up_server_secs : Range
  pub x_padding_bytes : Range

-- defaultsForMode: the same for every mode.
abbrev pub defaults_for_mode : String → ModeDefaults
defaults_for_mode mode = record {
  max_each_post_bytes = range 1_000_000 1_000_000;
  min_posts_interval_ms = range 30 30;
  max_buffered_posts = 30;
  stream_up_server_secs = range 20 80;
  x_padding_bytes = range 100 1000;
}

-- defaultUplinkChunkSize
unfoldable pub default_uplink_chunk_size : String → Range → Range
default_uplink_chunk_size placement sc_max_each_post =
    if str_eq placement "cookie"
    then range (2 * 1024) (3 * 1024)
    else (if str_eq placement "header" then range (3 * 1000) (4 * 1000) else sc_max_each_post)
