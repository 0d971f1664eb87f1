-- ===== src/Server/PacketUp/Delivered.antt =====
-- A packet that the client sends is routed to the packet-up handler.
use sing_xhttp.Common.{
  if_false, if-not-true, if-not-false, ℕ, ◌≡◌, ◌≢◌, refl, ap, ◌∙◌, Bool, true, false, not, ◌||◌,
  ◌&&◌, some, List, ◌∷◌,
}
use sing_xhttp.Common.Text.{Bytes, String, codes, str_eq}
use sing_xhttp.Common.Strings.{has_prefix}
use sing_xhttp.Codec.{Codec}
use sing_xhttp.Codec.Request.{Request, put, canonical, find-put_ne}
use sing_xhttp.Codec.Url.{is_empty, url_text}
use sing_xhttp.Codec.Meta.{extract_meta, extract_field, path_segments}
use sing_xhttp.Codec.Padding.{place_padding, extract_padding}
use sing_xhttp.Server.{Server, HttpRequest, mode_allows}
use sing_xhttp.Server.Routing.{
  packet_up, serve_http, route_padded, route_meta, route_found, route_session, route_switch,
  is_uplink_of, is_preface, bad_host_of, padding_valid,
}
use sing_xhttp.Server.Routing.OnBase.{on_base, and_false}

module _ (c : Codec) (default_mode : c.xpad_obfs ≡ false) (front v : Bytes) (r : Request) where
  abbrev pub text : Bytes
  text = url_text front (put (codes "x_padding") v r.query)

  abbrev pub padded : Request
  padded = record r { header = put (codes "Referer") text r.header }

  pub placed : place_padding c front r v ≡ padded
  unfolding place_padding
  placed = if-not-false c.xpad_obfs _ _ default_mode

  same_field :
      (placement key : String) (segs : List Bytes)
      → canonical (codes key) ≢ codes "Referer"
      → extract_field padded placement key segs ≡ extract_field r placement key segs
  unfolding extract_field
  same_field placement key segs ne =
      rw (find-put_ne (canonical (codes key)) (codes "Referer") text r.header ne) refl

  pub same_meta :
      canonical (codes c.session_key) ≢ codes "Referer"
      → canonical (codes c.seq_key) ≢ codes "Referer"
      → extract_meta c padded ≡ extract_meta c r
  unfolding extract_meta path_segments
  same_meta session_name seq_name =
      rw (same_field c.session_placement c.session_key (path_segments c padded) session_name) (
        rw
          (same_field c.seq_placement c.seq_key
            (extract_field r c.session_placement c.session_key (path_segments c r)).1 seq_name)
          refl)

-- A POST that the server's guards let pass, to a server without gRPC framing.
pub record IsPlainPost (huffman_len : Bytes → ℕ) (parses : Bytes → Bool) (s : Server)
    (r : HttpRequest) : Type 0 where
  pub post : r.method ≡ "POST"
  pub host : bad_host_of s r ≡ false
  pub padding : padding_valid huffman_len parses s r ≡ true
  pub plain : s.opts.grpc_framing ≡ false

module _ (huffman_len : Bytes → ℕ) (parses : Bytes → Bool) (s : Server) (r : HttpRequest)
    (post : IsPlainPost huffman_len parses s r) (x y : ℕ) (xs ys : Bytes)
    (meta : extract_meta s.codec r.fields ≡ some (x ∷ xs, y ∷ ys))
    (allowed : mode_allows s "packet-up" ≡ true) where
  not_preface : is_preface r ≡ false
  unfolding is_preface
  not_preface = and_false (str_eq r.method "PRI") _ (ap (λ m. str_eq m "PRI") post.post)

  switched :
      (obfs : Bool) → route_switch s true (x ∷ xs) (y ∷ ys) obfs ≡ packet_up (x ∷ xs) (y ∷ ys)
  unfolding route_switch
  switched obfs = rw allowed refl

  uplink : is_uplink_of r (y ∷ ys) ≡ true
  unfolding is_uplink_of
  uplink = ap (λ m. not (str_eq m "GET") || true) post.post

  in_session :
      (obfs : Bool) → route_session s r obfs (x ∷ xs) (y ∷ ys) ≡ packet_up (x ∷ xs) (y ∷ ys)
  unfolding route_session
  in_session obfs =
      if_false (s.opts.grpc_framing && true) _ _ (and_false s.opts.grpc_framing true post.plain)
      ∙ if_false (is_uplink_of r (y ∷ ys) && false) _ _ (ap (λ b. b && false) uplink)
      ∙ ap (λ b. route_switch s b (x ∷ xs) (y ∷ ys) obfs) uplink
      ∙ switched obfs

  padded_route : route_padded huffman_len parses s r ≡ packet_up (x ∷ xs) (y ∷ ys)
  unfolding route_padded route_meta
  padded_route =
      let obfs = s.codec.xpad_obfs && not (is_empty (extract_padding parses s.codec r.fields)) in
      if-not-true (padding_valid huffman_len parses s r) _ _ post.padding
      ∙ if_false (s.opts.grpc_framing && not (str_eq r.method "GET")) _ _
          (and_false s.opts.grpc_framing _ post.plain)
      ∙ ap (route_found s r obfs) meta
      ∙ in_session obfs

  pub served : serve_http huffman_len parses s r ≡ packet_up (x ∷ xs) (y ∷ ys)
  unfolding serve_http
  served =
      if_false (is_preface r) _ _ not_preface
      ∙ if_false (bad_host_of s r) _ _ post.host
      ∙ if-not-true (has_prefix r.fields.path s.codec.base_path) _ _
          (on_base s.codec r.fields (x ∷ xs, y ∷ ys) meta)
      ∙ if_false (str_eq r.method "OPTIONS") _ _ (ap (λ m. str_eq m "OPTIONS") post.post)
      ∙ padded_route
