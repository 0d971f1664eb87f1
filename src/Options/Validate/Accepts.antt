-- ===== src/Options/Validate/Accepts.antt =====
-- What a configuration that passes Validate satisfies, and that nothing else passes.
use sing_xhttp.Common.{
  ◌≡◌, refl, ◌≢◌, ◌↔◌, inl, inr, true, Option, none, some, List, [], ◌∷◌, arith, Bool-cases,
}
use sing_xhttp.Common.Int.{ℤ, pos, ◌≤ℤ◌, is_negative}
use sing_xhttp.Common.Text.{String, str_eq_iff}
use sing_xhttp.Common.Strings.{one_of, OneOf, one_of_iff}
use sing_xhttp.Options.{Range, XmuxConfig, Options}
use sing_xhttp.Options.Validate.ServicePath.{service_iff}
use sing_xhttp.Options.Validate.Keys.{KeysDiffer, keys_iff}
use sing_xhttp.Options.Validate.Rules.{GrpcReady, SoundRange, SoundXmux, IsValid}
use sing_xhttp.Options.Validate.{
  ConfigError, refuse, ◌then_check◌, validate, check_mode, check_grpc, check_placements,
  check_padding, check_uplink, check_ranges, valid_range, valid_ranges, valid_meta_placement,
  valid_padding_placement, valid_uplink_data_placement, or_path, session_key_of, seq_key_of, modes,
  meta_placements, padding_placements, uplink_placements, streaming_modes, padding_methods,
  keyed_placements, post_methods, body_placements, xmux_ranges,
}

mode_iff : (o : Options) → (check_mode o ≡ none) ↔ OneOf o.mode modes
unfolding check_mode
mode_iff o =
    ((λ e. ground (arith, one_of_iff o.mode modes)), λ e. ground (arith, one_of_iff o.mode modes))

grpc_iff : (o : Options) → (check_grpc o ≡ none) ↔ (o.grpc_framing ≡ true → GrpcReady o)
unfolding check_grpc
grpc_iff o = (
  (λ e on. record {
    streaming = ground (arith, one_of_iff o.mode streaming_modes);
    grpc_header = ground arith;
    post = ground (arith, one_of_iff o.method post_methods);
    body = ground (arith, one_of_iff o.uplink_data_placement body_placements);
    service = (service_iff o.path).0 (ground arith);
    padding = λ obfs k. ground (arith, str_eq_iff o.x_padding_placement "query");
  }),
  λ ready. elim (Bool-cases o.grpc_framing) [
    | inl on ↦
        let r = ready on in
        let service = (service_iff o.path).1 r.service in
        ground (
          arith,
          r,
          service,
          one_of_iff o.mode streaming_modes,
          one_of_iff o.method post_methods,
          one_of_iff o.uplink_data_placement body_placements,
          str_eq_iff o.x_padding_placement "query",
        )
    | inr off ↦ rw off
  ],
)

range_iff : (name : String) (r : Option Range) → (valid_range name r ≡ none) ↔ SoundRange r
unfolding valid_range
range_iff name none = ((λ _. tt), λ _. refl)
range_iff name (some r) = ((λ e. ground arith), λ h. ground arith)

abbrev SoundRanges : List (String × Option Range) → Type 0
SoundRanges [] = Unit {0}
SoundRanges ((name, r) ∷ rs) = SoundRange r × SoundRanges rs

ranges_iff : (rs : List (String × Option Range)) → (valid_ranges rs ≡ none) ↔ SoundRanges rs
unfolding valid_ranges
ranges_iff [] = ((λ _. tt), λ _. refl)
ranges_iff ((name, r) ∷ rs) = (
  (λ e. ground (arith, range_iff name r, ranges_iff rs)),
  λ h. ground (arith, range_iff name r, ranges_iff rs),
)

xmux_iff : (x : Option XmuxConfig) → (valid_ranges (xmux_ranges x) ≡ none) ↔ SoundXmux x
unfolding xmux_ranges
xmux_iff none = ranges_iff []
xmux_iff (some x) =
    let r = ranges_iff (xmux_ranges (some x)) in
    (
      (λ e. let (a, (b, (c, (d, (f, _))))) = r.0 e in (a, b, c, d, f)),
      λ h. let (a, b, c, d, f) = h in r.1 (a, (b, (c, (d, (f, tt))))),
    )

placements_iff :
    (o : Options)
    → (check_placements o ≡ none) ↔ (
        OneOf o.session_placement meta_placements
        × OneOf o.seq_placement meta_placements
        × KeysDiffer o)
unfolding check_placements valid_meta_placement
placements_iff o = (
  (λ e. (
    ground (arith, one_of_iff o.session_placement meta_placements),
    ground (arith, one_of_iff o.seq_placement meta_placements),
    λ off same k. ground (
      arith,
      str_eq_iff (or_path o.session_placement) "path",
      str_eq_iff (or_path o.session_placement) (or_path o.seq_placement),
      str_eq_iff (session_key_of o) (seq_key_of o),
    ),
  )),
  λ h. ground (
    arith,
    one_of_iff o.session_placement meta_placements,
    one_of_iff o.seq_placement meta_placements,
    str_eq_iff (or_path o.session_placement) "path",
    str_eq_iff (or_path o.session_placement) (or_path o.seq_placement),
    str_eq_iff (session_key_of o) (seq_key_of o),
  ),
)

padding_iff :
    (o : Options)
    → (check_padding o ≡ none) ↔ (
        o.x_padding_obfs_mode ≡ true
        → OneOf o.x_padding_placement padding_placements × OneOf o.x_padding_method padding_methods)
unfolding check_padding valid_padding_placement
padding_iff o = (
  (λ e on. (
    ground (arith, one_of_iff o.x_padding_placement padding_placements),
    ground (arith, one_of_iff o.x_padding_method padding_methods),
  )),
  λ h. elim (Bool-cases o.x_padding_obfs_mode) [
    | inl on ↦
        let (place, method) = h on in
        ground (
          arith,
          place,
          method,
          one_of_iff o.x_padding_placement padding_placements,
          one_of_iff o.x_padding_method padding_methods,
        )
    | inr off ↦ rw off
  ],
)

uplink_iff :
    (o : Options)
    → (check_uplink o ≡ none) ↔ (
        OneOf o.uplink_data_placement uplink_placements
        × (OneOf o.uplink_data_placement keyed_placements → o.uplink_data_key ≢ ""))
unfolding check_uplink valid_uplink_data_placement
uplink_iff o = (
  (λ e. (
    ground (arith, one_of_iff o.uplink_data_placement uplink_placements),
    λ keyed k. ground (
      arith,
      one_of_iff o.uplink_data_placement keyed_placements,
      str_eq_iff o.uplink_data_key "",
    ),
  )),
  λ h. elim (Bool-cases (one_of o.uplink_data_placement keyed_placements)) [
    | inl keyed ↦
        let filled = h.1 ((one_of_iff o.uplink_data_placement keyed_placements).0 keyed) in
        ground (
          arith,
          filled,
          one_of_iff o.uplink_data_placement uplink_placements,
          str_eq_iff o.uplink_data_key "",
        )
    | inr other ↦ ground (arith, one_of_iff o.uplink_data_placement uplink_placements)
  ],
)

-- Both checks pass.
both_iff :
    {P Q : Type 0} (a b : Option ConfigError)
    → (a ≡ none) ↔ P
    → (b ≡ none) ↔ Q
    → ((a then_check b) ≡ none) ↔ (P × Q)
both_iff none b p q = ((λ e. (p.0 refl, q.0 e)), λ h. q.1 h.1)
both_iff (some x) b p q = ((λ e. cc), λ h. absurd (cc (p.1 h.0)))

number_iff : (z : ℤ) (e : ConfigError) → (refuse (is_negative z) e none ≡ none) ↔ (pos 0 ≤ℤ z)
number_iff z e = ((λ k. ground arith), λ h. ground arith)

abbrev SoundNumbers : Options → Type 0
SoundNumbers o =
    SoundRanges
      (("uplink_chunk_size", o.uplink_chunk_size) ∷ ("session_id_length", o.session_id_length) ∷ [])
    × ((pos 0 ≤ℤ o.server_max_header_bytes)
        × (SoundRanges (
              ("x_padding_bytes", o.x_padding_bytes)
              ∷ ("sc_max_each_post_bytes", o.sc_max_each_post_bytes)
              ∷ ("sc_min_posts_interval_ms", o.sc_min_posts_interval_ms)
              ∷ ("sc_stream_up_server_secs", o.sc_stream_up_server_secs)
              ∷ [])
            × ((pos 0 ≤ℤ o.sc_max_buffered_posts) × SoundXmux o.xmux)))

check_ranges_iff : (o : Options) → (check_ranges o ≡ none) ↔ SoundNumbers o
unfolding check_ranges
check_ranges_iff o = both_iff _ _ (ranges_iff _) (
    both_iff _ _ (number_iff o.server_max_header_bytes _) (
      both_iff _ _ (ranges_iff _)
        (both_iff _ _ (number_iff o.sc_max_buffered_posts _) (xmux_iff o.xmux))))

numbers : {o : Options} → IsValid o → SoundNumbers o
numbers v = (
  (v.uplink_chunk_size, (v.session_id_length, tt)),
  (
    v.header_bytes,
    (
      (
        v.x_padding_bytes,
        (v.sc_max_each_post_bytes, (v.sc_min_posts_interval_ms, (v.sc_stream_up_server_secs, tt))),
      ),
      (v.buffered_posts, v.xmux),
    ),
  ),
)

-- Validate accepts a configuration exactly when it meets the rules, which are stated apart from the
-- code: the texts of each field, the gRPC service path as a grammar, keys that do not clash at one
-- placement with their defaults counted in, ranges in order, and no negative sizes.
pub validate_iff : (o : Options) → (validate o ≡ none) ↔ IsValid o
unfolding validate
validate_iff o =
    let parts = both_iff _ _ (mode_iff o) (
      both_iff _ _ (grpc_iff o) (
        both_iff _ _ (placements_iff o)
          (both_iff _ _ (padding_iff o) (both_iff _ _ (uplink_iff o) (check_ranges_iff o))))) in
    (
      (λ e.
          let (mode, (grpc, (place, (pad, (up, num))))) = parts.0 e in
          let apart = (keys_iff o place.0).0 place.2 in
          record {
            mode = mode;
            grpc = grpc;
            session_placement = place.0;
            seq_placement = place.1;
            header_keys = apart.0;
            query_keys = apart.1.0;
            cookie_keys = apart.1.1;
            padding = pad;
            uplink_placement = up.0;
            uplink_key = up.1;
            uplink_chunk_size = num.0.0;
            session_id_length = num.0.1.0;
            header_bytes = num.1.0;
            x_padding_bytes = num.1.1.0.0;
            sc_max_each_post_bytes = num.1.1.0.1.0;
            sc_min_posts_interval_ms = num.1.1.0.1.1.0;
            sc_stream_up_server_secs = num.1.1.0.1.1.1.0;
            buffered_posts = num.1.1.1.0;
            xmux = num.1.1.1.1;
          }),
      λ v. parts.1 (
        v.mode,
        (
          v.grpc,
          (
            (
              v.session_placement,
              v.seq_placement,
              (keys_iff o v.session_placement).1 (v.header_keys, (v.query_keys, v.cookie_keys)),
            ),
            (v.padding, ((v.uplink_placement, v.uplink_key), numbers v)),
          ),
        ),
      ),
    )
