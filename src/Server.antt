-- ===== src/Server.antt =====
-- xhttp/server.go: the server's settings, the headers of a response, and which handler a request
-- gets. TLS, listeners and logging are left out.
pub mod Host
pub mod Routing
pub mod Table
pub mod PacketUp
pub mod Runs
pub mod Download
pub mod Tests
use sing_xhttp.Common.{
  ℕ, Bool, true, false, not, ◌||◌, ◌&&◌, Option, none, some, List, [], ◌∷◌, ltb, if◌then◌else◌,
}
use sing_xhttp.Common.Int.{ℤ, pos, pos_part, is_positive}
use sing_xhttp.Common.Text.{Bytes, String, codes, str_eq}
use sing_xhttp.Common.Strings.{bytes_eq, has_prefix}
use sing_xhttp.Options.{Range, Options, or_mode_default, defaults_for_mode}
use sing_xhttp.Options.Validate.{ConfigError, validate}
use sing_xhttp.Codec.{Codec, new_codec, with_slash}
use sing_xhttp.Codec.Request.{Request, Pairs, find, put, canonical, value_or_empty}
use sing_xhttp.Codec.Url.{is_empty}
use sing_xhttp.Codec.Meta.{extract_meta}
use sing_xhttp.Codec.Padding.{
  Response, extract_padding, validate_padding, apply_padding_to_response,
}
use sing_xhttp.Grpc.{grpc_path, is_grpc_content_type}
use Host.{is_valid_http_host}

-- What a handler sees of a request. The body gives its content, and then ends or fails.
pub record HttpRequest : Type 0 where
  pub method : String
  pub proto : String
  pub proto_major : ℕ
  pub host : Bytes
  pub content_length : ℤ
  pub fields : Request
  pub body : Bytes
  pub body_fails : Bool

pub record Server : Type 0 where
  pub host : Bytes
  pub path : Bytes
  pub method : String
  pub headers : List (String × List String)
  pub opts : Options
  pub codec : Codec
  pub max_each_post_bytes : Range
  pub max_buffered_posts : ℤ
  pub stream_up_server_secs : Range
  pub server_max_header_bytes : ℤ

-- intOr
unfoldable pub int_or : ℤ → ℕ → ℤ
int_or v d = if is_positive v then v else pos d

pub data NewServer : Type 0 where
  server : Server → NewServer
  invalid_options : ConfigError → NewServer

abbrev pub server_of : Options → Server
server_of o =
    let md = defaults_for_mode o.mode in
    record {
      host = codes o.host;
      path = o.path;
      method = o.method;
      headers = o.headers;
      opts = o;
      codec = new_codec o;
      max_each_post_bytes = or_mode_default o.sc_max_each_post_bytes md.max_each_post_bytes;
      max_buffered_posts = int_or o.sc_max_buffered_posts md.max_buffered_posts;
      stream_up_server_secs = or_mode_default o.sc_stream_up_server_secs md.stream_up_server_secs;
      server_max_header_bytes = int_or o.server_max_header_bytes 8192;
    }

-- The options as NewServer completes them.
abbrev pub with_defaults : Options → Options
with_defaults o = record o {
  mode = if str_eq o.mode "" then "packet-up" else o.mode;
  path = with_slash o.path;
}

-- NewServer
unfoldable pub new_server : Options → NewServer
new_server o = elim (validate o) [
  | some e ↦ invalid_options e
  | none ↦ server (server_of (with_defaults o))
]

-- (*Server).modeAllows
unfoldable pub mode_allows : Server → String → Bool
mode_allows s request_mode =
    let m = s.opts.mode in
    if str_eq m "" || str_eq m "auto"
    then true
    else (if str_eq m "stream-down" then str_eq request_mode "packet-up" else str_eq m request_mode)

abbrev or_star : Bytes → Bytes
or_star v = if is_empty v then codes "*" else v

abbrev pub header_of : HttpRequest → String → Bytes
header_of r name = value_or_empty (find (codes name) r.fields.header)

-- Whether a field travels in a cookie.
unfoldable pub needs_credentials : Codec → Bool
needs_credentials c =
    str_eq c.session_placement "cookie"
    || (str_eq c.seq_placement "cookie"
        || (str_eq c.xpad_placement "cookie"
            || (str_eq c.uplink_data_placement "cookie" || str_eq c.uplink_data_placement "auto")))

-- (*Server).writeCORSHeaders
unfoldable pub write_cors_headers : Server → HttpRequest → Pairs → Pairs
write_cors_headers s r h =
    let origin = put (codes "Access-Control-Allow-Origin") (or_star (header_of r "Origin")) h in
    let credentials =
      if needs_credentials s.codec
      then put (codes "Access-Control-Allow-Credentials") (codes "true") origin
      else origin in
    if str_eq r.method "OPTIONS"
    then put (codes "Access-Control-Allow-Headers")
        (or_star (header_of r "Access-Control-Request-Headers"))
        (put (codes "Access-Control-Allow-Methods")
          (or_star (header_of r "Access-Control-Request-Method")) credentials)
    else credentials

-- The values of one configured header; the last one stays.
unfoldable pub set_values : String → List String → Pairs → Pairs
set_values k [] h = h
set_values k (v ∷ vs) h = set_values k vs (put (canonical (codes k)) (codes v) h)

unfoldable pub set_headers : List (String × List String) → Pairs → Pairs
set_headers [] h = h
set_headers ((k, vs) ∷ rest) h = set_headers rest (set_values k vs h)

-- The response headers that every request on the base path gets, in the order they are set.
unfoldable pub common_headers : Server → HttpRequest → Pairs
common_headers s r =
    set_headers s.headers
      (put (codes "Cache-Control") (codes "no-store") (write_cors_headers s r []))
