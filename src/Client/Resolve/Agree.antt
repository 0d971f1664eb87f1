-- ===== src/Client/Resolve/Agree.antt =====
-- The mode that a client resolves, at a server with the same options.
use sing_xhttp.Common.{
  ◌≡◌, ◌≢◌, refl, ap, sym, subst, ◌∙◌, inl, inr, Bool, true, false, not, ◌||◌, ◌&&◌, Option, none,
  some, if◌then◌else◌, Bool-cases, Option-cases, if_true, if_false,
}
use sing_xhttp.Common.Text.{Bytes, String, str_eq, str_eq_iff}
use sing_xhttp.Options.{Options}
use sing_xhttp.Options.Validate.{ConfigError, validate}
use sing_xhttp.Server.{
  with_defaults, Server, invalid_options, server, server_of, new_server, mode_allows,
}
use sing_xhttp.Client.Resolve.{
  TlsConfig, Resolved, NewClient, resolved, refused, ClientError, config_error, resolve_mode,
  resolved_of, check_client, is_reality, new_client, is_stream_mode, refuses_http3,
}

-- The upload that a mode sends: a client in stream-down mode sends packets.
abbrev pub uplink_of : String → String
uplink_of mode = if str_eq mode "stream-down" then "packet-up" else mode

str_refl : (s : String) → str_eq s s ≡ true
str_refl s = (str_eq_iff s s).1 refl

-- The server's mode of an explicit mode.
abbrev with_mode : Options → String → Options
with_mode o mode = record o { mode = mode }

allows_auto : (s : Server) → s.opts.mode ≡ "auto" → (m : String) → mode_allows s m ≡ true
unfolding mode_allows
allows_auto s e m = if_true (str_eq s.opts.mode "" || str_eq s.opts.mode "auto") _ _ (rw e refl)

allows_own :
    (s : Server)
    → str_eq s.opts.mode "" ≡ false
    → str_eq s.opts.mode "auto" ≡ false
    → mode_allows s (uplink_of s.opts.mode) ≡ true
unfolding mode_allows
allows_own s e k =
    if_false (str_eq s.opts.mode "" || str_eq s.opts.mode "auto") _ _ (rw (e, k) refl)
    ∙ elim (Bool-cases (str_eq s.opts.mode "stream-down")) [
      | inl down ↦ rw down refl
      | inr other ↦ rw other (str_refl s.opts.mode)
    ]

-- What the client resolves of an explicit mode.
resolve_own :
    (o : Options) (reality : Bool)
    → str_eq o.mode "" ≡ false
    → str_eq o.mode "auto" ≡ false
    → resolve_mode o reality ≡ o.mode
unfolding resolve_mode
resolve_own o reality e k = if_false (str_eq o.mode "" || str_eq o.mode "auto") _ _ (rw (e, k) refl)

not_both : (e : ClientError) (c : Resolved) → refused e ≢ resolved c
not_both e c h = cc

same_resolved : (c c' : Resolved) → resolved c ≡ resolved c' → c ≡ c'
same_resolved c c' h = cc

client_invalid :
    (o : Options) (tls : Option TlsConfig) (addr : Bytes) (download : Option (Option TlsConfig))
    (e : ConfigError)
    → validate o ≡ some e
    → new_client o tls addr download ≡ refused (config_error e)
unfolding new_client
client_invalid o tls addr download e k = rw (k, new_client) refl

pub client_valid :
    (o : Options) (tls : Option TlsConfig) (addr : Bytes) (download : Option (Option TlsConfig))
    → validate o ≡ none
    → new_client o tls addr download
      ≡ check_client (resolved_of o tls addr) o.grpc_framing tls download
unfolding new_client
client_valid o tls addr download k = rw (k, new_client) refl

past_refusal :
    (b : Bool) (e : ClientError) (y : NewClient) (c : Resolved)
    → (if b then refused e else y) ≡ resolved c
    → (b ≡ false) × (y ≡ resolved c)
past_refusal true e y c h = absurd (not_both e c h)
past_refusal false e y c h = (refl, h)

-- What a client that is not refused has passed.
abbrev pub Passed : Options → Option TlsConfig → Resolved → Type 0
Passed o tls c =
    (refuses_http3 tls ≡ false)
    × ((o.grpc_framing && not (is_stream_mode c.mode)) ≡ false)
    × ((is_stream_mode c.mode && str_eq c.http_version "1.1") ≡ false)

checked :
    (c' : Resolved) (grpc : Bool) (tls : Option TlsConfig) (download : Option (Option TlsConfig))
    (c : Resolved)
    → check_client c' grpc tls download ≡ resolved c
    → (c' ≡ c)
      × (refuses_http3 tls ≡ false)
      × ((grpc && not (is_stream_mode c'.mode)) ≡ false)
      × ((is_stream_mode c'.mode && str_eq c'.http_version "1.1") ≡ false)
unfolding check_client
checked c' grpc tls download c h =
    let (no_h3, h1) = past_refusal (refuses_http3 tls) _ _ c h in
    let (grpc_ok, h2) = past_refusal (grpc && not (is_stream_mode c'.mode)) _ _ c h1 in
    let (streams, h3) =
      past_refusal (is_stream_mode c'.mode && str_eq c'.http_version "1.1") _ _ c h2 in
    let (_, h4) = past_refusal _ _ (resolved c') c h3 in
    (same_resolved c' c h4, no_h3, grpc_ok, streams)

client_passed :
    (o : Options) (tls : Option TlsConfig) (addr : Bytes) (download : Option (Option TlsConfig))
    (c : Resolved)
    → new_client o tls addr download ≡ resolved c
    → (c.mode ≡ resolve_mode o (is_reality tls)) × Passed o tls c
client_passed o tls addr download c h = elim (Option-cases (validate o)) [
  | inr (e, k) ↦ absurd (not_both _ c (sym (client_invalid o tls addr download e k) ∙ h))
  | inl k ↦
      let (same, no_h3, grpc_ok, streams) =
        checked (resolved_of o tls addr) o.grpc_framing tls download c
          (sym (client_valid o tls addr download k) ∙ h) in
      subst (λ x. (x.mode ≡ resolve_mode o (is_reality tls)) × Passed o tls x) same
        (refl, (no_h3, grpc_ok, streams))
]

server_invalid :
    (o : Options) (e : ConfigError) → validate o ≡ some e → new_server o ≡ invalid_options e
unfolding new_server
server_invalid o e k = rw (k, new_server) refl

pub server_valid :
    (o : Options) → validate o ≡ none → new_server o ≡ server (server_of (with_defaults o))
unfolding new_server
server_valid o k = rw (k, new_server) refl

no_server : (e : ConfigError) (s : Server) → invalid_options e ≢ server s
no_server e s h = cc

same_server : (s s' : Server) → server s ≡ server s' → s ≡ s'
same_server s s' h = cc

server_mode :
    (o : Options) (s : Server)
    → new_server o ≡ server s
    → s.opts.mode ≡ (if str_eq o.mode "" then "packet-up" else o.mode)
server_mode o s h = elim (Option-cases (validate o)) [
  | inr (e, k) ↦ absurd (no_server e s (sym (server_invalid o e k) ∙ h))
  | inl k ↦
      ap (λ x. x.opts.mode)
        (sym (same_server (server_of (with_defaults o)) s (sym (server_valid o k) ∙ h)))
]

-- With a mode that is set, and the same options on both sides: if the client is made and the server
-- is made, the server's mode allows the upload that the client's mode sends; and the client has no
-- HTTP/3 that its TLS cannot do, no gRPC framing but with a streaming mode, and no streaming mode
-- over HTTP/1.1.
pub client_mode_agrees :
    (o : Options) (tls : Option TlsConfig) (addr : Bytes) (download : Option (Option TlsConfig))
    (c : Resolved) (s : Server)
    → str_eq o.mode "" ≡ false
    → new_client o tls addr download ≡ resolved c
    → new_server o ≡ server s
    → (mode_allows s (uplink_of c.mode) ≡ true) × Passed o tls c
client_mode_agrees o tls addr download c s named is_c is_s =
    let (mode, passed) = client_passed o tls addr download c is_c in
    let s_mode : s.opts.mode ≡ o.mode =
      server_mode o s is_s ∙ if_false (str_eq o.mode "") "packet-up" o.mode named in
    (
      elim (Bool-cases (str_eq o.mode "auto")) [
        | inl auto ↦ allows_auto s (s_mode ∙ (str_eq_iff o.mode "auto").0 auto) (uplink_of c.mode)
        | inr other ↦
            ap (λ m. mode_allows s (uplink_of m))
              (mode ∙ resolve_own o (is_reality tls) named other ∙ sym s_mode)
            ∙ allows_own s (ap (λ m. str_eq m "") s_mode ∙ named)
                (ap (λ m. str_eq m "auto") s_mode ∙ other)
      ],
      passed,
    )

-- With the mode left empty on both sides, no separate download settings, and a TLS configuration
-- such as REALITY's that has no standard form: if both the client and the server are made, the client
-- resolves to a single stream, and the server that NewServer makes of the
-- same options does not allow one.
pub empty_mode_disagrees :
    (o : Options) (tls : Option TlsConfig) (addr : Bytes) (download : Option (Option TlsConfig))
    (c : Resolved) (s : Server)
    → o.mode ≡ ""
    → is_reality tls ≡ true
    → o.download_settings ≡ none
    → new_client o tls addr download ≡ resolved c
    → new_server o ≡ server s
    → (c.mode ≡ "stream-one") × (mode_allows s c.mode ≡ false)
unfolding mode_allows resolve_mode
empty_mode_disagrees o tls addr download c s empty reality alone is_c is_s =
    let (mode, _) = client_passed o tls addr download c is_c in
    let one : c.mode ≡ "stream-one" = mode ∙ rw (empty, reality, alone) refl in
    let s_mode : s.opts.mode ≡ "packet-up" =
      server_mode o s is_s ∙ ap (λ m. if str_eq m "" then "packet-up" else m) empty in
    (one, rw (s_mode, one) refl)
