-- ===== src/Server/Routing.antt =====
-- xhttp/server.go: ServeHTTP, from a request to the handler it calls or the error it answers.
pub mod Guards
pub mod OnBase
use sing_xhttp.Common.{
  ℕ, Bool, true, false, not, ◌||◌, ◌&&◌, Option, none, some, List, [], ◌∷◌, ltb, if◌then◌else◌,
}
use sing_xhttp.Common.Int.{ℤ}
use sing_xhttp.Common.Text.{Bytes, String, codes, str_eq}
use sing_xhttp.Common.Strings.{bytes_eq, has_prefix}
use sing_xhttp.Codec.Request.{Pairs, find, value_or_empty}
use sing_xhttp.Codec.Url.{is_empty}
use sing_xhttp.Codec.Meta.{extract_meta}
use sing_xhttp.Codec.Padding.{
  Response, extract_padding, validate_padding, apply_padding_to_response,
}
use sing_xhttp.Grpc.{grpc_path, is_grpc_content_type}
use sing_xhttp.Server.{Server, HttpRequest, header_of, mode_allows, common_headers}
use sing_xhttp.Server.Host.{is_valid_http_host}

-- Why a request is refused.
pub data Reason : Type 0 where
  bad_host bad_path invalid_padding grpc_method_or_path grpc_content_type grpc_encoding : Reason
  grpc_mode path_mismatch grpc_download upload_without_session : Reason
  packet_up_not_allowed stream_up_not_allowed : Reason

-- What becomes of a request: the h2c handler's, refused with a status, answered as a preflight, or
-- passed to a handler with its session ID, its sequence number, and whether padding was accepted in
-- obfs mode.
pub data Route : Type 0 where
  h2c : Route
  invalid : ℕ → Reason → Route
  preflight stream_one : Route
  stream_up : Bytes → Bool → Route
  packet_up : Bytes → Bytes → Route
  download : Bytes → Route

abbrev no_pairs : Pairs → Bool
no_pairs [] = true
no_pairs _ = false

-- The HTTP/2 connection preface.
unfoldable pub is_preface : HttpRequest → Bool
is_preface r =
    str_eq r.method "PRI"
    && (no_pairs r.fields.header
        && (bytes_eq r.fields.path (codes "*") && str_eq r.proto "HTTP/2.0"))

abbrev pub refuse_unless : Bool → ℕ → Reason → Route → Route
refuse_unless ok code reason route = if ok then route else invalid code reason

-- The gRPC stream of a session, or without one.
unfoldable pub route_grpc_stream : Server → Bytes → Bool → Route
route_grpc_stream s session_id obfs =
    if is_empty session_id && mode_allows s "stream-one"
    then stream_one
    else refuse_unless (not (is_empty session_id) && mode_allows s "stream-up") 400 grpc_mode
        (stream_up session_id obfs)

unfoldable pub is_grpc_call : Server → HttpRequest → Bool
is_grpc_call s r =
    str_eq r.method "POST"
    && (not (ltb r.proto_major 2) && bytes_eq r.fields.path (grpc_path s.codec.base_path))

unfoldable pub is_plain_encoding : Bytes → Bool
is_plain_encoding encoding = is_empty encoding || bytes_eq encoding (codes "identity")

-- The branch of gRPC framing, for all methods but GET.
unfoldable pub route_grpc : Server → HttpRequest → Bool → Route
route_grpc s r obfs = refuse_unless (is_grpc_call s r) 404 grpc_method_or_path (
    refuse_unless (is_grpc_content_type (header_of r "Content-Type")) 415 grpc_content_type (
      refuse_unless (is_plain_encoding (header_of r "Grpc-Encoding")) 415 grpc_encoding
        (route_grpc_stream s (header_of r "X-Xhttp-Session") obfs)))

-- The switch at the end of ServeHTTP.
unfoldable pub route_switch : Server → Bool → Bytes → Bytes → Bool → Route
route_switch s is_uplink session_id seq obfs =
    if is_uplink && not (is_empty seq)
    then refuse_unless (mode_allows s "packet-up") 400 packet_up_not_allowed
        (packet_up session_id seq)
    else (if is_uplink && is_empty seq
        then refuse_unless (mode_allows s "stream-up") 400 stream_up_not_allowed
            (stream_up session_id obfs)
        else download session_id)

unfoldable pub is_uplink_of : HttpRequest → Bytes → Bool
is_uplink_of r seq = not (str_eq r.method "GET") || not (is_empty seq)

-- What follows extractMetaFromRequest.
unfoldable pub route_session : Server → HttpRequest → Bool → Bytes → Bytes → Route
route_session s r obfs session_id seq =
    let is_uplink = is_uplink_of r seq in
    if s.opts.grpc_framing && (is_empty session_id || not (is_empty seq))
    then invalid 400 grpc_download
    else (if is_empty session_id && mode_allows s "stream-one"
        then stream_one
        else (if is_uplink && is_empty session_id
            then invalid 400 upload_without_session
            else route_switch s is_uplink session_id seq obfs))

abbrev pub route_found : Server → HttpRequest → Bool → Option (Bytes × Bytes) → Route
route_found s r obfs none = invalid 404 path_mismatch
route_found s r obfs (some (session_id, seq)) = route_session s r obfs session_id seq

unfoldable pub route_meta : Server → HttpRequest → Bool → Route
route_meta s r obfs = route_found s r obfs (extract_meta s.codec r.fields)

unfoldable pub bad_host_of : Server → HttpRequest → Bool
bad_host_of s r = not (is_empty s.host) && not (is_valid_http_host r.host s.host)

-- From the padding check on.
module _ (huffman_len : Bytes → ℕ) (parses : Bytes → Bool) where
  unfoldable pub padding_valid : Server → HttpRequest → Bool
  padding_valid s r = validate_padding huffman_len s.codec (extract_padding parses s.codec r.fields)

  unfoldable pub route_padded : Server → HttpRequest → Route
  route_padded s r =
      let obfs = s.codec.xpad_obfs && not (is_empty (extract_padding parses s.codec r.fields)) in
      if not (padding_valid s r)
      then invalid 400 invalid_padding
      else (if s.opts.grpc_framing && not (str_eq r.method "GET")
          then route_grpc s r obfs
          else route_meta s r obfs)

  -- (*Server).ServeHTTP
  unfoldable pub serve_http : Server → HttpRequest → Route
  serve_http s r =
      if is_preface r
      then h2c
      else (if bad_host_of s r
          then invalid 404 bad_host
          else (if not (has_prefix r.fields.path s.codec.base_path)
              then invalid 404 bad_path
              else (if str_eq r.method "OPTIONS" then preflight else route_padded s r)))

  -- The headers and cookies that it has set by then; `none` if the padding's draw asks for more.
  unfoldable pub serve_headers : Server → HttpRequest → ℕ → List (Option Bytes) → Option Response
  serve_headers s r bits reads =
      if is_preface r || (bad_host_of s r || not (has_prefix r.fields.path s.codec.base_path))
      then some (record { header = []; set_cookies = [] })
      else apply_padding_to_response huffman_len s.codec bits reads
          (record { header = common_headers s r; set_cookies = [] })
