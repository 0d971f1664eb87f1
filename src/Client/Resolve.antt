-- ===== src/Client/Resolve.antt =====
-- xhttp/client.go: NewClientWithDownload up to its transports. A TLS configuration is what the code
-- asks of it.
pub mod Agree
use sing_xhttp.Common.{
  ℕ, Bool, true, false, not, ◌||◌, ◌&&◌, Option, none, some, get_or, List, [], ◌∷◌, if◌then◌else◌,
}
use sing_xhttp.Common.Int.{ℤ, pos, pos_part, is_negative}
use sing_xhttp.Common.Text.{Bytes, String, codes, str_eq}
use sing_xhttp.Common.Strings.{before, after}
use sing_xhttp.Options.{Options, XmuxConfig, DownloadConfig, is_zero}
use sing_xhttp.Options.Validate.{ConfigError, validate}
use sing_xhttp.Codec.{with_slash}
use sing_xhttp.Codec.Url.{is_empty}

pub record TlsConfig : Type 0 where
  pub next_protos : List String
  pub has_std_config : Bool
  pub server_name : Bytes

-- The keep-alive period in seconds; 0 sends no PING.
unfoldable pub keep_alive_of : Option XmuxConfig → ℕ
keep_alive_of none = 30
keep_alive_of (some x) =
    if is_zero x.h_keep_alive_period
    then 30
    else (if is_negative x.h_keep_alive_period then 0 else pos_part x.h_keep_alive_period)

-- REALITY, or uTLS: there is no standard configuration.
unfoldable pub is_reality : Option TlsConfig → Bool
is_reality none = false
is_reality (some t) = not t.has_std_config

-- decideHTTPVersion
unfoldable pub decide_http_version : Option TlsConfig → Bool → String
decide_http_version tls true = "2"
decide_http_version none false = "1.1"
decide_http_version (some t) false = elim t.next_protos [
  | [] ↦ "2"
  | p ∷ ps ↦ if str_eq p "http/1.1" then "1.1" else (if str_eq p "h3" then "3" else "2")
]

-- validateHTTP3TLS: whether the configuration is refused.
unfoldable pub refuses_http3 : Option TlsConfig → Bool
refuses_http3 none = false
refuses_http3 (some t) = elim t.next_protos [
  | [] ↦ false
  | p ∷ ps ↦ str_eq p "h3" && not t.has_std_config
]

-- The mode of "" and "auto".
unfoldable pub resolve_mode : Options → Bool → String
resolve_mode o reality =
    if str_eq o.mode "" || str_eq o.mode "auto"
    then (if reality
        then elim o.download_settings [ none ↦ "stream-one" | some d ↦ "stream-up" ]
        else "packet-up")
    else o.mode

-- A path before its query, and the query.
unfoldable pub split_path : Bytes → Bytes × Bytes
split_path p = (before b'?' (with_slash p), get_or (after b'?' (with_slash p)) [])

-- The first of the configured host, the TLS server name and the server's address.
unfoldable pub host_of : Options → Option TlsConfig → Bytes → Bytes
host_of o tls addr =
    let named : Bytes = elim tls [ none ↦ [] | some t ↦ t.server_name ] in
    let host = codes o.host in
    if is_empty host then (if is_empty named then addr else named) else host

pub data ClientError : Type 0 where
  config_error : ConfigError → ClientError
  http3_needs_std grpc_needs_stream streams_need_http2 download_http3_needs_std : ClientError

pub record Resolved : Type 0 where
  pub mode : String
  pub http_version : String
  pub keep_alive : ℕ
  pub method : String
  pub path : Bytes
  pub raw_query : Bytes
  pub host : Bytes

pub data NewClient : Type 0 where
  refused : ClientError → NewClient
  resolved : Resolved → NewClient

abbrev pub is_stream_mode : String → Bool
is_stream_mode mode = str_eq mode "stream-up" || str_eq mode "stream-one"

-- What is settled once nothing is refused.
abbrev pub resolved_of : Options → Option TlsConfig → Bytes → Resolved
resolved_of o tls addr =
    let reality = is_reality tls in
    record {
      mode = resolve_mode o reality;
      http_version = decide_http_version tls reality;
      keep_alive = keep_alive_of o.xmux;
      method = if str_eq o.method "" then "POST" else o.method;
      path = (split_path o.path).0;
      raw_query = (split_path o.path).1;
      host = host_of o tls addr;
    }

-- The checks behind Validate, in their order; `download` is the TLS configuration of a separate
-- download transport, if there is one.
unfoldable pub check_client :
    Resolved → Bool → Option TlsConfig → Option (Option TlsConfig) → NewClient
check_client c grpc tls download =
    let download_refused : Bool = elim download [ none ↦ false | some t ↦ refuses_http3 t ] in
    if refuses_http3 tls
    then refused http3_needs_std
    else (if grpc && not (is_stream_mode c.mode)
        then refused grpc_needs_stream
        else (if is_stream_mode c.mode && str_eq c.http_version "1.1"
            then refused streams_need_http2
            else (if download_refused then refused download_http3_needs_std else resolved c)))

-- NewClientWithDownload
unfoldable pub new_client :
    Options → Option TlsConfig → Bytes → Option (Option TlsConfig) → NewClient
new_client o tls addr download = elim (validate o) [
  | some e ↦ refused (config_error e)
  | none ↦ check_client (resolved_of o tls addr) o.grpc_framing tls download
]
