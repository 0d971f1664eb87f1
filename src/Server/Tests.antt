-- ===== src/Server/Tests.antt =====
-- The server's theorems at concrete inputs.
use sing_xhttp.Common.{
  ℕ, ◌≡◌, ◌≢◌, ◌⊎◌, ◌↔◌, refl, inr, Bool, true, none, some, List, [], ◌∷◌, length, arith,
}
use sing_xhttp.Common.Int.{pos}
use sing_xhttp.Common.Text.{Bytes, codes}
use sing_xhttp.Common.Decimal.{parse_uint, value_from}
use sing_xhttp.Common.Strings.{split, after, has_prefix, into_first, before, ends_with, bytes_eq}
use sing_xhttp.Options.{Options, range, or_mode_default}
use sing_xhttp.Options.Tests.{plain}
use sing_xhttp.Options.Validate.{default_key}
use sing_xhttp.Codec.{new_codec, normalize_path}
use sing_xhttp.Codec.Request.{Request, find, canonical, all_tokens, in_canon}
use sing_xhttp.Codec.Meta.{extract_meta, extract_field, path_segments}
use sing_xhttp.Codec.Padding.{extract_padding, extract_default, value_in_url, validate_padding}
use sing_xhttp.Server.{Server, HttpRequest, server_of, mode_allows}
use sing_xhttp.Server.Routing.{
  download, serve_http, bad_host_of, is_preface, route_padded, padding_valid, route_meta,
  route_session, is_uplink_of, route_switch,
}
use sing_xhttp.Codec.Url.{query_of, parse_query, parse_parts, parse_part, unescape, unescape_from}
use sing_xhttp.Codec.Payload.{decode_uplink}
use sing_xhttp.Server.Routing.Guards.{Passed, Admitted, IsHandled, handled_passed}
use sing_xhttp.Server.Table.{reap, no_sessions, lookup, remove, delete_session, upsert_session}
use sing_xhttp.Server.Download.{nil_reader, start_download}
use sing_xhttp.Server.Download.NoSession.{IsBareGet, bare_get_has_nil_reader}
use sing_xhttp.Server.Runs.{Op, opened, packet, end_download, reaped, run_ops, keeps_session}
use sing_xhttp.Server.PacketUp.{
  status, handle_packet_up, max_of, accept_packet, read_body, read_full,
}
use sing_xhttp.Server.PacketUp.Refusals.{handle_packet_up_answers}
use sing_xhttp.Server.PacketUp.Arrival.{post_of}

abbrev options : Options
options = record plain {
  path = codes "/up/";
  x_padding_bytes = some (range 2 6);
  session_placement = "query";
  session_key = "s";
  seq_placement = "query";
  seq_key = "n";
}

abbrev server : Server
server = server_of options

abbrev any_url : Bytes → Bool
any_url s = true

abbrev base : Request
base = record { path = codes "/up/"; query = []; header = []; cookies = [] }

abbrev site : Bytes
site = codes "https://a.example/up/"

abbrev ab : Bytes
ab = codes "ab"

-- A request with its padding in the Referer.
abbrev asked : HttpRequest
asked =
    post_of (codes "h")
      (record {
        path = codes "/up/";
        query = (codes "s", ab) ∷ (codes "n", codes "7") ∷ [];
        header = (codes "Referer", codes "u?x_padding=XXX") ∷ [];
        cookies = [];
      })
      (codes "hello")

asked-IsHandled : IsHandled (serve_http length any_url server asked)
unfolding serve_http is_preface bad_host_of route_padded padding_valid extract_padding
    extract_default value_in_url query_of parse_query split parse_parts parse_part unescape
    unescape_from before after has_prefix validate_padding route_meta extract_meta extract_field
    route_session find into_first bytes_eq is_uplink_of route_switch mode_allows new_codec
    default_key path_segments or_mode_default canonical all_tokens in_canon normalize_path ends_with
asked-IsHandled = tt

handled_passed_example :
    Passed length any_url server asked × Admitted server (serve_http length any_url server asked)
handled_passed_example = handled_passed length any_url server asked asked-IsHandled

abbrev bad_request : ℕ
bad_request = 400

asked_badly : (handle_packet_up server asked ab (codes "x") true no_sessions).0 ≡ status bad_request
unfolding handle_packet_up accept_packet read_body read_full max_of new_codec parse_uint value_from
    decode_uplink or_mode_default
asked_badly = refl

handle_packet_up_answers_example :
    (((bad_request ≡ 400) ⊎ (bad_request ≡ 413))
      × ((handle_packet_up server asked ab (codes "x") true no_sessions).1 ≡ no_sessions))
    ⊎ ((bad_request ≡ 200) ⊎ (bad_request ≡ 409)) × (parse_uint (codes "x") ≢ none)
handle_packet_up_answers_example =
    handle_packet_up_answers server asked ab (codes "x") true no_sessions bad_request asked_badly

abbrev two_ops : List Op
two_ops = opened (pos 30) ab ∷ end_download (codes "cd") ∷ []

ab_is_held : lookup ab (run_ops two_ops no_sessions).table ≡ some 0
unfolding lookup upsert_session delete_session remove bytes_eq
ab_is_held = refl

abbrev more_ops : List Op
more_ops = reaped ab 4 ∷ opened (pos 30) (codes "cd") ∷ packet server asked ab (codes "x") true ∷ []

keeps_session_example :
    let after = run_ops more_ops (run_ops two_ops no_sessions) in
    (lookup ab after.table ≡ some 0)
    × (upsert_session (pos 9) ab after ≡ (0, after))
    × (lookup ab (delete_session ab after).table ≡ none)
    × (lookup ab (reap ab 0 after).table ≡ none)
keeps_session_example =
    keeps_session more_ops (run_ops two_ops no_sessions) ab 0 (pos 9) ab_is_held
      (inr (λ e. omega (arith, e)), (tt, (tt, tt)))

abbrev bare_get : HttpRequest
bare_get = record asked {
  method = "GET";
  fields = record {
    path = codes "/up/";
    query = [];
    header = (codes "Referer", codes "u?x_padding=XXX") ∷ [];
    cookies = [];
  };
}

get-IsBareGet : IsBareGet length any_url server bare_get
unfolding bad_host_of padding_valid extract_padding extract_default value_in_url query_of
    parse_query split parse_parts parse_part unescape unescape_from before after has_prefix
    validate_padding extract_meta extract_field find into_first bytes_eq mode_allows new_codec
    default_key path_segments or_mode_default normalize_path ends_with
get-IsBareGet = record {
  get = refl;
  host = refl;
  padding = refl;
  plain = refl;
  no_single = refl;
  bare = refl;
}

bare_get_has_nil_reader_example :
    (serve_http length any_url server bare_get ≡ download [])
    × (((start_download server ab [] no_sessions).reader ≡ nil_reader) ↔ (ab ≡ []))
bare_get_has_nil_reader_example =
    bare_get_has_nil_reader length any_url server bare_get [] ab no_sessions get-IsBareGet
