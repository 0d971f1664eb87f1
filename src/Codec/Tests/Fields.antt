-- ===== src/Codec/Tests/Fields.antt =====
-- The theorems on padding, payload chunks and session IDs at concrete inputs.
use sing_xhttp.Common.{
  ℕ, ◌+◌, ◌/◌, ◌≤◌, ◌≡◌, refl, inl, Bool, true, false, ◌||◌, ◌&&◌, some, List, [], ◌∷◌, length, leb,
  ◌==◌, map, max, arith, if◌then◌else◌,
}
use sing_xhttp.Common.Int.{pos}
use sing_xhttp.Common.Text.{Bytes, codes}
use sing_xhttp.Common.Strings.{OneOf}
use sing_xhttp.Options.{Options, range, or_default}
use sing_xhttp.Options.Tests.{plain}
use sing_xhttp.Codec.{new_codec}
use sing_xhttp.Codec.Request.{Request, find}
use sing_xhttp.Codec.Tests.{blank}
use sing_xhttp.Codec.Charset.{
  drawn, unfinished, rand_string, generate_session_id, session_table, predefined_table, is_biased,
  limit,
}
use sing_xhttp.Codec.Charset.Drawn.{Drawable, Filled, accepted, enough, rand_string-Filled}
use sing_xhttp.Codec.Charset.SessionId.{generate_session_id_sound, hex_never_ends}
use sing_xhttp.Codec.Padding.{extract_padding, place_padding}
use sing_xhttp.Codec.Padding.Trip.{Unpadded, padding_places, extract-place}
use sing_xhttp.Codec.Url.Escape.{all_bytes-AreBytes}
use sing_xhttp.Codec.Url.Trip.{has_byte_no}
use sing_xhttp.Codec.Padding.Tokenish.{bits_of}

-- Session IDs of digits, 3 to 5 of them.
abbrev numbered : Options
numbered = record plain { session_id_table = "number"; session_id_length = some (range 3 5) }

abbrev bytes : List Bytes
bytes = (17 ∷ 255 ∷ 4 ∷ []) ∷ (0 ∷ 1 ∷ 2 ∷ 3 ∷ []) ∷ []

enough_digits : 5 ≤ enough (codes "0123456789") bytes
unfolding accepted is_biased limit
enough_digits = omega arith

generate_session_id_sound_example :
    (id : Bytes) × (generate_session_id (new_codec numbered) 9 (map some bytes) (codes "uuid")
      ≡ drawn id)
    × Drawable (codes "0123456789") id
    × (3 ≤ length id)
    × (length id ≤ max 3 5)
unfolding new_codec session_table predefined_table or_default
generate_session_id_sound_example =
    generate_session_id_sound (new_codec numbered) b'0' (codes "123456789") 3 5 9 bytes
      (codes "uuid") refl refl (omega arith) (omega arith) (omega arith) enough_digits

rand_string-Filled_example :
    Filled (codes "abc") 2 (rand_string (pos 2) (codes "abc") (map some bytes))
unfolding accepted is_biased limit
rand_string-Filled_example =
    rand_string-Filled 2 b'a' (codes "bc") bytes (omega arith) (omega arith)

abbrev hex : Options
hex = record plain { session_id_table = "hex"; session_id_length = some (range 8 8) }

hex_never_ends_example :
    generate_session_id (new_codec hex) 9 (map some bytes) (codes "uuid") ≡ unfinished []
unfolding new_codec or_default
hex_never_ends_example =
    hex_never_ends (new_codec hex) 8 8 9 bytes (codes "uuid") (inl refl) refl (omega arith)
      (omega arith) (omega arith)

-- Every text parses as a URL.
abbrev any_url : Bytes → Bool
any_url s = true

abbrev site : Bytes
site = codes "https://a.example/up/"

abbrev padded : Options
padded = record plain { x_padding_bytes = some (range 3 9) }

-- The Referer of a codec in default mode.
padded-Unpadded : Unpadded any_url (new_codec padded) site blank
unfolding new_codec find
padded-Unpadded = record {
  one_query = has_byte_no b'?' site refl;
  no_fragment = has_byte_no b'#' site refl;
  are_bytes = tt;
  accepts = λ q. refl;
  key_bytes = tt;
  has_key = λ e. cc;
  has_header = λ e. cc;
  no_cookie = λ e. cc;
  no_header = λ e. cc;
}

padded_place :
    (new_codec padded).xpad_obfs ≡ true → OneOf (new_codec padded).xpad_placement padding_places
unfolding new_codec
padded_place e = cc

extract-place_example :
    extract_padding any_url
      (new_codec padded)
      (place_padding (new_codec padded) site blank (codes "XXXX"))
    ≡ codes "XXXX"
extract-place_example =
    extract-place any_url (new_codec padded) site blank (codes "XXXX") padded-Unpadded
      (all_bytes-AreBytes (codes "XXXX") refl) refl padded_place

-- RFC 7541, appendix B, for letters and digits.
abbrev one_in : Bytes → ℕ → Bool
one_in [] c = false
one_in (x ∷ xs) c = c == x || one_in xs c

abbrev rfc_size : ℕ → ℕ
rfc_size c =
    if one_in (codes "012aceiost") c
    then 5
    else (if one_in (codes "3456789Abdfghlmnpru") c
        then 6
        else (if one_in (codes "XZ") c then 8 else 7))

abbrev rfc_len : Bytes → ℕ
rfc_len s = (bits_of rfc_size s + 7) / 8

abbrev sized_well : Bytes → Bool
sized_well [] = true
sized_well (c ∷ s) = (leb 5 (rfc_size c) && leb (rfc_size c) 8) && sized_well s

abbrev tokens : Options
tokens = record plain {
  x_padding_bytes = some (range 1 3);
  x_padding_obfs_mode = true;
  x_padding_method = "tokenish";
  x_padding_placement = "cookie";
}

-- Chunks of 64 bytes or more in headers.
abbrev chunked : Options
chunked = record plain {
  uplink_data_placement = "header";
  uplink_data_key = "X-Data";
  uplink_chunk_size = some (range 64 90);
}
