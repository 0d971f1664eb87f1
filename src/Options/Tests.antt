-- ===== src/Options/Tests.antt =====
-- The configuration's theorems at concrete inputs.
use sing_xhttp.Common.{ℕ, ◌≡◌, ◌↔◌, ◌⊎◌, ◌≤◌, false, none, some, [], arith}
use sing_xhttp.Common.Int.{pos}
use sing_xhttp.Common.Text.{codes}
use sing_xhttp.Options.{Options, range}
use sing_xhttp.Options.RangeRand.{range_rand?, range_rand_bounds}
use sing_xhttp.Options.Validate.{validate}
use sing_xhttp.Options.Validate.Rules.{IsValid}
use sing_xhttp.Options.Validate.Accepts.{validate_iff}

abbrev pub plain : Options
plain = record {
  mode = "packet-up";
  host = "";
  path = codes "/up?q";
  method = "";
  headers = [];
  no_grpc_header = false;
  no_sse_header = false;
  grpc_framing = false;
  x_padding_bytes = none;
  sc_max_each_post_bytes = some (range 500 900);
  sc_max_buffered_posts = pos 0;
  sc_min_posts_interval_ms = none;
  sc_stream_up_server_secs = none;
  x_padding_obfs_mode = false;
  x_padding_placement = "";
  x_padding_key = "";
  x_padding_header = "";
  x_padding_method = "";
  session_placement = "header";
  session_key = "X-Id";
  seq_placement = "header";
  seq_key = "x-id";
  uplink_data_placement = "";
  uplink_data_key = "";
  uplink_chunk_size = some (range 10 20);
  session_id_table = "";
  session_id_length = none;
  server_max_header_bytes = pos 0;
  download_settings = none;
  xmux = none;
}

validate_iff_example : (validate plain ≡ none) ↔ IsValid plain
validate_iff_example = validate_iff plain

range_rand_bounds_example :
    (n : ℕ) × (range_rand? (range 100 1000) 12345 ≡ some (pos n))
    × (100 ≤ n)
    × ((n ≤ 1000) ⊎ (n ≡ 100))
range_rand_bounds_example = range_rand_bounds 100 1000 12345 (omega arith) (omega arith)
