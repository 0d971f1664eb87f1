-- ===== src/Codec/Payload/Trip.antt =====
-- The server decodes the payload that the client put in chunks.
use sing_xhttp.Common.{ℕ, ◌^◌, ◌<◌, ◌≡◌, Bool, Option, some, List, [], ◌∷◌, if◌then◌else◌}
use sing_xhttp.Common.Text.{Bytes, String}
use sing_xhttp.Options.{range}
use sing_xhttp.Codec.{Codec}
use sing_xhttp.Codec.Request.{Request}
use sing_xhttp.Codec.Url.Escape.{AreBytes}
use sing_xhttp.Codec.Payload.{header_name, cookie_name, encode_uplink, decode_uplink}
use sing_xhttp.Codec.Payload.Written.{Free}

-- What the two sides agree on.
abbrev pub Received : Codec → Bytes → Option (Request × Bool) → Type 0
Received c payload o =
    (sent : Request) × (in_fields : Bool) × (o ≡ some (sent, in_fields))
    × (decode_uplink c sent (if in_fields then [] else payload) ≡ payload)

-- No chunk is in the request yet.
pub record Unused (c : Codec) (r : Request) : Type 0 where
  pub headers : Free (header_name c) 0 r.header
  pub cookies : Free (cookie_name c) 0 r.cookies

module _ (c : Codec) (from to : ℕ) (sized : c.uplink_chunk_size ≡ range from to)
    (some_size : 0 < from) (lo : from < 2 ^ 31) (hi : to < 2 ^ 31) (draws : ℕ → ℕ) (r : Request)
    (payload : Bytes) (h : AreBytes payload) (unused : Unused c r) where
  abbrev sends : Option (Request × Bool)
  sends = encode_uplink c draws r payload

abbrev pub uplink_places : List String
uplink_places = "header" ∷ "cookie" ∷ "body" ∷ "auto" ∷ []
