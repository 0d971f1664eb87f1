-- ===== src/Server/Routing/Guards.antt =====
-- What every request that reaches a handler has passed.
use sing_xhttp.Common.{
  ℕ, ◌≡◌, refl, Bool, true, false, not, ◌||◌, ◌&&◌, Option, none, some, if◌then◌else◌,
}
use sing_xhttp.Common.Text.{Bytes, str_eq}
use sing_xhttp.Common.Strings.{has_prefix}
use sing_xhttp.Codec.Url.{is_empty}
use sing_xhttp.Codec.Meta.{extract_meta}
use sing_xhttp.Server.{Server, HttpRequest, header_of, mode_allows}
use sing_xhttp.Grpc.{is_grpc_content_type}
use sing_xhttp.Codec.Padding.{extract_padding}
use sing_xhttp.Server.Routing.{
  Route, grpc_method_or_path, grpc_content_type, grpc_encoding, grpc_mode, grpc_download,
  upload_without_session, packet_up_not_allowed, stream_up_not_allowed, invalid_padding, bad_host,
  bad_path, refuse_unless, route_grpc_stream, is_grpc_call, is_plain_encoding, route_switch,
  is_uplink_of, route_found, h2c, invalid, preflight, stream_one, stream_up, packet_up, download,
  route_grpc, route_session, route_meta, route_padded, padding_valid, bad_host_of, is_preface,
  serve_http,
}

-- The route is a handler's, and the server's mode allows it. A download has no mode of its own.
abbrev pub Admitted : Server → Route → Type 0
Admitted s (packet_up id seq) =
    (mode_allows s "packet-up" ≡ true) × (is_empty id ≡ false) × (is_empty seq ≡ false)
Admitted s (stream_up id obfs) = (mode_allows s "stream-up" ≡ true) × (is_empty id ≡ false)
Admitted s stream_one = mode_allows s "stream-one" ≡ true
Admitted s (download id) = Unit
Admitted s _ = ⊥

-- No handler's, or admitted.
abbrev Checked : Server → Route → Type 0
Checked s (invalid code reason) = Unit
Checked s h2c = Unit
Checked s preflight = Unit
Checked s (packet_up id seq) = Admitted s (packet_up id seq)
Checked s (stream_up id obfs) = Admitted s (stream_up id obfs)
Checked s stream_one = Admitted s stream_one
Checked s (download id) = Admitted s (download id)

Checked-if :
    (s : Server) (b : Bool) (x y : Route)
    → (b ≡ true → Checked s x)
    → (b ≡ false → Checked s y)
    → Checked s (if b then x else y)
Checked-if s true x y h k = h refl
Checked-if s false x y h k = k refl

not-false : (b : Bool) → not b ≡ false → b ≡ true
not-false true h = refl
not-false false h = cc

not-true : (b : Bool) → not b ≡ true → b ≡ false
not-true true h = cc
not-true false h = refl

and_both : (a b : Bool) → (a && b) ≡ true → (a ≡ true) × (b ≡ true)
and_both true b h = (refl, h)
and_both false b h = cc

second_false : (a b : Bool) → a ≡ true → (a && b) ≡ false → b ≡ false
second_false true b e h = h
second_false false b e h = cc

route_switch-Checked :
    (s : Server) (up : Bool) (id seq : Bytes) (obfs : Bool)
    → (up ≡ true → is_empty id ≡ false)
    → Checked s (route_switch s up id seq obfs)
unfolding route_switch
route_switch-Checked s up id seq obfs named =
    Checked-if s (up && not (is_empty seq))
      (refuse_unless (mode_allows s "packet-up") 400 packet_up_not_allowed (packet_up id seq))
      (if up && is_empty seq
        then refuse_unless (mode_allows s "stream-up") 400 stream_up_not_allowed (stream_up id obfs)
        else download id)
      (λ e.
        Checked-if s (mode_allows s "packet-up") (packet_up id seq)
          (invalid 400 packet_up_not_allowed)
          (λ allowed. (allowed, named (and_both _ _ e).0, not-true _ (and_both up _ e).1))
          (λ e. tt))
      (λ e.
        Checked-if s (up && is_empty seq)
          (refuse_unless (mode_allows s "stream-up") 400 stream_up_not_allowed (stream_up id obfs))
          (download id)
          (λ e.
            Checked-if s (mode_allows s "stream-up") (stream_up id obfs)
              (invalid 400 stream_up_not_allowed) (λ allowed. (allowed, named (and_both _ _ e).0))
              (λ e. tt))
          (λ e. tt))

route_session-Checked :
    (s : Server) (r : HttpRequest) (obfs : Bool) (id seq : Bytes)
    → Checked s (route_session s r obfs id seq)
unfolding route_session
route_session-Checked s r obfs id seq =
    let up = is_uplink_of r seq in
    let rest = route_switch s up id seq obfs in
    let named = if up && is_empty id then invalid 400 upload_without_session else rest in
    Checked-if s (s.opts.grpc_framing && (is_empty id || not (is_empty seq)))
      (invalid 400 grpc_download)
      (if is_empty id && mode_allows s "stream-one" then stream_one else named) (λ e. tt)
      (λ e.
        Checked-if s (is_empty id && mode_allows s "stream-one") stream_one named
          (λ one. (and_both _ _ one).1)
          (λ e.
            Checked-if s (up && is_empty id) (invalid 400 upload_without_session) rest (λ e. tt)
              (λ e.
                route_switch-Checked s up id seq obfs (λ k. second_false up (is_empty id) k e))))

route_grpc-Checked : (s : Server) (r : HttpRequest) (obfs : Bool) → Checked s (route_grpc s r obfs)
unfolding route_grpc route_grpc_stream
route_grpc-Checked s r obfs =
    let id = header_of r "X-Xhttp-Session" in
    let stream = route_grpc_stream s id obfs in
    let encoded =
      refuse_unless (is_plain_encoding (header_of r "Grpc-Encoding")) 415 grpc_encoding stream in
    let typed =
      refuse_unless (is_grpc_content_type (header_of r "Content-Type")) 415 grpc_content_type
        encoded in
    Checked-if s (is_grpc_call s r) typed (invalid 404 grpc_method_or_path)
      (λ e.
        Checked-if s (is_grpc_content_type (header_of r "Content-Type")) encoded
          (invalid 415 grpc_content_type)
          (λ e.
            Checked-if s (is_plain_encoding (header_of r "Grpc-Encoding")) stream
              (invalid 415 grpc_encoding)
              (λ e.
                Checked-if s (is_empty id && mode_allows s "stream-one") stream_one
                  (refuse_unless (not (is_empty id) && mode_allows s "stream-up") 400 grpc_mode
                    (stream_up id obfs))
                  (λ one. (and_both _ _ one).1)
                  (λ e.
                    Checked-if s (not (is_empty id) && mode_allows s "stream-up")
                      (stream_up id obfs) (invalid 400 grpc_mode)
                      (λ up. (
                        (and_both (not (is_empty id)) _ up).1,
                        not-true _ (and_both _ (mode_allows s "stream-up") up).0,
                      ))
                      (λ e. tt)))
              (λ e. tt))
          (λ e. tt))
      (λ e. tt)

route_found-Checked :
    (s : Server) (r : HttpRequest) (obfs : Bool) (o : Option (Bytes × Bytes))
    → Checked s (route_found s r obfs o)
route_found-Checked s r obfs none = tt
route_found-Checked s r obfs (some (id, seq)) = route_session-Checked s r obfs id seq

-- The route is one of the four handlers.
abbrev pub IsHandled : Route → Type 0
IsHandled stream_one = Unit
IsHandled (stream_up id obfs) = Unit
IsHandled (packet_up id seq) = Unit
IsHandled (download id) = Unit
IsHandled _ = ⊥

Checked-Admitted : (s : Server) (x : Route) → IsHandled x → Checked s x → Admitted s x
Checked-Admitted s stream_one h k = k
Checked-Admitted s (stream_up id obfs) h k = k
Checked-Admitted s (packet_up id seq) h k = k
Checked-Admitted s (download id) h k = k
Checked-Admitted s h2c h k = h
Checked-Admitted s preflight h k = h
Checked-Admitted s (invalid code reason) h k = absurd h

module _ (huffman_len : Bytes → ℕ) (parses : Bytes → Bool) (s : Server) (r : HttpRequest) where
  -- What a request has passed when its route is a handler's.
  abbrev pub Passed : Type 0
  Passed =
      (bad_host_of s r ≡ false)
      × (has_prefix r.fields.path s.codec.base_path ≡ true)
      × (padding_valid huffman_len parses s r ≡ true)

  route_padded-Checked : Checked s (route_padded huffman_len parses s r)
  unfolding route_padded route_meta
  route_padded-Checked =
      let obfs = s.codec.xpad_obfs && not (is_empty (extract_padding parses s.codec r.fields)) in
      let rest =
        if s.opts.grpc_framing && not (str_eq r.method "GET")
        then route_grpc s r obfs
        else route_meta s r obfs in
      Checked-if s (not (padding_valid huffman_len parses s r)) (invalid 400 invalid_padding) rest
        (λ e. tt)
        (λ e.
          Checked-if s (s.opts.grpc_framing && not (str_eq r.method "GET")) (route_grpc s r obfs)
            (route_meta s r obfs) (λ e. route_grpc-Checked s r obfs)
            (λ e. route_found-Checked s r obfs (extract_meta s.codec r.fields)))

  -- A handler is not reached by way of a refusal.
  past_guard :
      (b : Bool) (x y : Route)
      → ¬ IsHandled x
      → IsHandled (if b then x else y)
      → (b ≡ false) × IsHandled y
  past_guard true x y refuse h = absurd (refuse h)
  past_guard false x y refuse h = (refl, h)

  abbrev answer : Route
  answer = serve_http huffman_len parses s r

  handled_Passed : IsHandled answer → Passed
  unfolding serve_http route_padded
  handled_Passed h =
      let padded = route_padded huffman_len parses s r in
      let rest = if str_eq r.method "OPTIONS" then preflight else padded in
      let on_path =
        if not (has_prefix r.fields.path s.codec.base_path) then invalid 404 bad_path else rest in
      let on_host = if bad_host_of s r then invalid 404 bad_host else on_path in
      let (no_preface, h1) = past_guard (is_preface r) h2c on_host (λ x. x) h in
      let (host, h2) = past_guard (bad_host_of s r) (invalid 404 bad_host) on_path (λ x. x) h1 in
      let (path, h3) =
        past_guard (not (has_prefix r.fields.path s.codec.base_path)) (invalid 404 bad_path) rest
          (λ x. x) h2 in
      let (method, h4) = past_guard (str_eq r.method "OPTIONS") preflight padded (λ x. x) h3 in
      let obfs = s.codec.xpad_obfs && not (is_empty (extract_padding parses s.codec r.fields)) in
      let (padding, h5) =
        past_guard (not (padding_valid huffman_len parses s r)) (invalid 400 invalid_padding)
          (if s.opts.grpc_framing && not (str_eq r.method "GET")
            then route_grpc s r obfs
            else route_meta s r obfs)
          (λ x. x) h4 in
      (host, not-false _ path, not-false _ padding)

  answer-Checked : Checked s answer
  unfolding serve_http
  answer-Checked =
      let padded = route_padded huffman_len parses s r in
      let rest = if str_eq r.method "OPTIONS" then preflight else padded in
      let on_path =
        if not (has_prefix r.fields.path s.codec.base_path) then invalid 404 bad_path else rest in
      let on_host = if bad_host_of s r then invalid 404 bad_host else on_path in
      Checked-if s (is_preface r) h2c on_host (λ e. tt)
        (λ e.
          Checked-if s (bad_host_of s r) (invalid 404 bad_host) on_path (λ e. tt)
            (λ e.
              Checked-if s (not (has_prefix r.fields.path s.codec.base_path)) (invalid 404 bad_path)
                rest (λ e. tt)
                (λ e.
                  Checked-if s (str_eq r.method "OPTIONS") preflight padded (λ e. tt)
                    (λ e. route_padded-Checked))))

-- Every request that a handler gets has a host that the server accepts, a path under the base path,
-- and padding that passes the check; and its handler is one that the server's mode allows: a packet
-- has a session ID and a sequence number, a streamed upload a session ID.
pub handled_passed :
    (huffman_len : Bytes → ℕ) (parses : Bytes → Bool) (s : Server) (r : HttpRequest)
    → IsHandled (serve_http huffman_len parses s r)
    → Passed huffman_len parses s r × Admitted s (serve_http huffman_len parses s r)
handled_passed huffman_len parses s r h = (
  handled_Passed huffman_len parses s r h,
  Checked-Admitted s (serve_http huffman_len parses s r) h (answer-Checked huffman_len parses s r),
)
