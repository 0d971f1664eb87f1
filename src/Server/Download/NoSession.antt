-- ===== src/Server/Download/NoSession.antt =====
-- A GET with no session ID.
use sing_xhttp.Common.{
  ℕ, ◌≡◌, ◌↔◌, ◌∷◌, refl, ap, ◌∙◌, Bool, true, false, not, ◌||◌, ◌&&◌, some, [], if_false,
  if-not-true,
}
use sing_xhttp.Common.Text.{Bytes, str_eq}
use sing_xhttp.Common.Strings.{has_prefix}
use sing_xhttp.Codec.Request.{Pairs}
use sing_xhttp.Codec.Meta.{extract_meta}
use sing_xhttp.Codec.Url.{is_empty}
use sing_xhttp.Codec.Padding.{extract_padding}
use sing_xhttp.Server.{Server, HttpRequest, mode_allows}
use sing_xhttp.Server.Routing.{
  download, serve_http, route_padded, route_meta, route_found, route_session, route_switch,
  is_uplink_of, is_preface, bad_host_of, padding_valid,
}
use sing_xhttp.Server.Routing.OnBase.{on_base, and_false}
use sing_xhttp.Server.Table.{Sessions}
use sing_xhttp.Server.Download.{nil_reader, start_download}

-- A GET that passes the guards and carries neither field, to a server without gRPC framing whose
-- mode does not take single streams.
pub record IsBareGet (huffman_len : Bytes → ℕ) (parses : Bytes → Bool) (s : Server)
    (r : HttpRequest) : Type 0 where
  pub get : r.method ≡ "GET"
  pub host : bad_host_of s r ≡ false
  pub padding : padding_valid huffman_len parses s r ≡ true
  pub plain : s.opts.grpc_framing ≡ false
  pub no_single : mode_allows s "stream-one" ≡ false
  pub bare : extract_meta s.codec r.fields ≡ some ([], [])

module _ (huffman_len : Bytes → ℕ) (parses : Bytes → Bool) (s : Server) (r : HttpRequest)
    (bare : IsBareGet huffman_len parses s r) where
  not_uplink : is_uplink_of r [] ≡ false
  unfolding is_uplink_of
  not_uplink = ap (λ m. not (str_eq m "GET") || false) bare.get

  switched : (obfs : Bool) → route_switch s false [] [] obfs ≡ download []
  unfolding route_switch
  switched obfs = refl

  in_session : (obfs : Bool) → route_session s r obfs [] [] ≡ download []
  unfolding route_session
  in_session obfs =
      if_false (s.opts.grpc_framing && true) _ _ (and_false s.opts.grpc_framing true bare.plain)
      ∙ if_false (true && mode_allows s "stream-one") _ _ bare.no_single
      ∙ if_false (is_uplink_of r [] && true) _ _ (and_false (is_uplink_of r []) true not_uplink)
      ∙ ap (λ b. route_switch s b [] [] obfs) not_uplink
      ∙ switched obfs

  padded_route : route_padded huffman_len parses s r ≡ download []
  unfolding route_padded route_meta
  padded_route =
      let obfs = s.codec.xpad_obfs && not (is_empty (extract_padding parses s.codec r.fields)) in
      if-not-true (padding_valid huffman_len parses s r) _ _ bare.padding
      ∙ if_false (s.opts.grpc_framing && not (str_eq r.method "GET")) _ _
          (and_false s.opts.grpc_framing _ bare.plain)
      ∙ ap (route_found s r obfs) bare.bare
      ∙ in_session obfs

  not_preface : is_preface r ≡ false
  unfolding is_preface
  not_preface = and_false (str_eq r.method "PRI") _ (ap (λ m. str_eq m "PRI") bare.get)

  served : serve_http huffman_len parses s r ≡ download []
  unfolding serve_http
  served =
      if_false (is_preface r) _ _ not_preface
      ∙ if_false (bad_host_of s r) _ _ bare.host
      ∙ if-not-true (has_prefix r.fields.path s.codec.base_path) _ _
          (on_base s.codec r.fields ([], []) bare.bare)
      ∙ if_false (str_eq r.method "OPTIONS") _ _ (ap (λ m. str_eq m "OPTIONS") bare.get)
      ∙ padded_route

nil_reader_iff :
    (s : Server) (id : Bytes) (h : Pairs) (sessions : Sessions)
    → ((start_download s id h sessions).reader ≡ nil_reader) ↔ (id ≡ [])
unfolding start_download
nil_reader_iff s [] h sessions = ((λ _. refl), λ _. refl)
nil_reader_iff s (x ∷ xs) h sessions = ((λ e. cc), λ e. cc)

-- A GET under the base path with the right host, valid padding and neither a session ID nor a sequence
-- number, to a server without gRPC framing whose mode does not take single streams, is not refused:
-- it is routed to the download handler with an empty session ID; and the connection that this handler
-- hands over for a session ID, whatever the sessions, reads from a nil reader exactly when the ID is
-- empty.
pub bare_get_has_nil_reader :
    (huffman_len : Bytes → ℕ) (parses : Bytes → Bool) (s : Server) (r : HttpRequest) (h : Pairs)
    (id : Bytes) (sessions : Sessions)
    → IsBareGet huffman_len parses s r
    → (serve_http huffman_len parses s r ≡ download [])
      × (((start_download s id h sessions).reader ≡ nil_reader) ↔ (id ≡ []))
bare_get_has_nil_reader huffman_len parses s r h id sessions bare =
    (served huffman_len parses s r bare, nil_reader_iff s id h sessions)
