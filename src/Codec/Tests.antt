-- ===== src/Codec/Tests.antt =====
-- The codec's theorems at concrete inputs.
mod Fields
use sing_xhttp.Common.{◌≡◌, refl, inl, inr, true, none, some, [], arith, All}
use sing_xhttp.Common.Int.{pos, ◌≤ℤ◌}
use sing_xhttp.Common.Text.{codes}
use sing_xhttp.Common.Strings.{Lacks, has_prefix, ends_with, before, one_of}
use sing_xhttp.Options.{Options}
use sing_xhttp.Options.Tests.{plain}
use sing_xhttp.Options.Validate.{
  validate, check_mode, check_grpc, check_placements, check_padding, check_uplink, check_ranges,
  valid_meta_placement, valid_padding_placement, valid_uplink_data_placement, valid_range,
  valid_ranges, xmux_ranges, session_key_of, seq_key_of, or_path, default_key,
}
use sing_xhttp.Options.Validate.Accepts.{validate_iff}
use sing_xhttp.Codec.{new_codec, normalize_path}
use sing_xhttp.Codec.Request.{Request, find, canonical, all_tokens, in_canon}
use sing_xhttp.Codec.Cookie.Sent.{IsVisible, are_visible, All-IsVisible}
use sing_xhttp.Codec.Meta.{apply_meta, extract_meta}
use sing_xhttp.Codec.Meta.Trip.{Ready, extract-apply}
use sing_xhttp.Codec.Clash.{same_header}
use sing_xhttp.Codec.Meta.Trip.Fields.{held_at}
use sing_xhttp.Codec.Settings.{new_codec-chunks}

abbrev mixed : Options
mixed = record plain {
  session_placement = "cookie";
  session_key = "s";
  seq_placement = "query";
  seq_key = "n";
}

abbrev pub blank : Request
blank = record { path = codes "/up/"; query = []; header = []; cookies = [] }

mixed-Ready : Ready (new_codec mixed) blank
unfolding new_codec normalize_path before ends_with held_at find default_key all_tokens
mixed-Ready = record {
  session_place = inr (inr (inr (inl refl)));
  seq_place = inr (inl refl);
  base = refl;
  start = refl;
  apart = λ ne e. cc;
  session_cookie = λ e. refl;
  seq_cookie = λ e. cc;
  free_session = refl;
  free_seq = refl;
}

abc-IsVisible : All IsVisible (codes "abc")
unfolding are_visible
abc-IsVisible = All-IsVisible (codes "abc") refl

seven-IsVisible : All IsVisible (codes "7")
unfolding are_visible
seven-IsVisible = All-IsVisible (codes "7") refl

extract-apply_example :
    extract_meta (new_codec mixed) (apply_meta (new_codec mixed) blank (codes "abc") (codes "7"))
    ≡ some (codes "abc", codes "7")
extract-apply_example =
    extract-apply (new_codec mixed) blank (codes "abc") (codes "7") mixed-Ready (λ e. cc)
      ((λ e. omega arith), ((λ e. omega arith), ((λ e. omega arith), tt))) ((λ e. omega arith), tt)
      abc-IsVisible seven-IsVisible

same_header_example :
    extract_meta (new_codec plain) (apply_meta (new_codec plain) blank (codes "abc") (codes "7"))
    ≡ some (codes "7", codes "7")
unfolding new_codec normalize_path before ends_with has_prefix canonical all_tokens in_canon
    default_key
same_header_example = same_header (new_codec plain) blank 97 55 (codes "bc") [] refl refl refl refl

plain_accepted : validate plain ≡ none
unfolding validate check_mode check_grpc check_placements check_padding check_uplink check_ranges
    valid_meta_placement valid_padding_placement valid_uplink_data_placement valid_range
    valid_ranges xmux_ranges session_key_of seq_key_of or_path default_key one_of
plain_accepted = refl

new_codec-chunks_example :
    let r = (new_codec plain).uplink_chunk_size in (pos 64 ≤ℤ r.from) × (r.from ≤ℤ r.to)
new_codec-chunks_example = new_codec-chunks plain ((validate_iff plain).0 plain_accepted)
