-- ===== src/Codec/Payload.antt =====
-- xhttp/meta.go: the upload in header or cookie chunks. The chunks are base64, which a cookie carries
-- as it is; its key is taken to be a token.
mod Names
mod Written
pub mod Trip
use sing_xhttp.Common.{
  ℕ, zero, suc, ◌+◌, ◌-◌, Bool, true, false, ◌||◌, Option, none, some, get_or, List, [], ◌∷◌, ◌++◌,
  length, take, drop, min, if◌then◌else◌,
}
use sing_xhttp.Common.Int.{ℤ, pos, pos_part, is_negative}
use sing_xhttp.Common.Text.{Bytes, String, codes, str_eq}
use sing_xhttp.Common.Decimal.{decimal}
use sing_xhttp.Options.RangeRand.{range_rand}
use sing_xhttp.Codec.{Codec}
use sing_xhttp.Codec.Request.{Request, Pairs, find, put, canonical, value_or_empty}
use sing_xhttp.Codec.Base64.{encode_base64, decode_base64}

-- "<key>-<i>", as a header name.
unfoldable pub header_name : Codec → ℕ → Bytes
header_name c i = canonical (codes c.uplink_data_key ++ (b'-' ∷ decimal i))

-- "<key>_<i>"
unfoldable pub cookie_name : Codec → ℕ → Bytes
cookie_name c i = codes c.uplink_data_key ++ (b'_' ∷ decimal i)

-- How a chunk is put: a header is set, a cookie is added.
unfoldable pub add_pair : Bytes → Bytes → Pairs → Pairs
add_pair k v m = m ++ ((k, v) ∷ [])

-- The loop of both writers, with how it names and puts a chunk. `draws` is what rangeRand draws in
-- each turn. `none` is the panic of a negative size, or a turn that takes nothing and so would go on
-- for ever; else each turn takes a byte at least, and the fuel is the length of the text.
module _ (c : Codec) (draws : ℕ → ℕ) (name : ℕ → Bytes)
    (place : Bytes → Bytes → Pairs → Pairs) where
  unfoldable pub write_chunks : ℕ → ℕ → Bytes → Pairs → Option Pairs
  write_chunks fuel i [] m = some m
  write_chunks zero i (x ∷ xs) m = none
  write_chunks (suc fuel) i (x ∷ xs) m =
      let size = range_rand c.uplink_chunk_size (draws i) in
      let n = min (pos_part size) (length (x ∷ xs)) in
      let rest = write_chunks fuel (suc i) (drop n (x ∷ xs)) (place (name i) (take n (x ∷ xs)) m) in
      if is_negative size then none else rest

-- (*codec).writePayloadToHeaders
unfoldable pub write_payload_to_headers : Codec → (ℕ → ℕ) → Pairs → Bytes → Option Pairs
write_payload_to_headers c draws h payload =
    let encoded = encode_base64 payload in
    write_chunks c draws (header_name c) put (length encoded) 0 encoded h

-- (*codec).writePayloadToCookies
unfoldable pub write_payload_to_cookies : Codec → (ℕ → ℕ) → Pairs → Bytes → Option Pairs
write_payload_to_cookies c draws cookies payload =
    let encoded = encode_base64 payload in
    write_chunks c draws (cookie_name c) add_pair (length encoded) 0 encoded cookies

abbrev pub in_header : Request → Option Pairs → Option (Request × Bool)
in_header r none = none
in_header r (some h) = some (record r { header = h }, true)

abbrev pub in_cookies : Request → Option Pairs → Option (Request × Bool)
in_cookies r none = none
in_cookies r (some m) = some (record r { cookies = m }, true)

-- (*codec).encodeUplinkPayload: the request, and whether its body is to be empty.
unfoldable pub encode_uplink : Codec → (ℕ → ℕ) → Request → Bytes → Option (Request × Bool)
encode_uplink c draws r payload =
    if str_eq c.uplink_data_placement "header"
    then in_header r (write_payload_to_headers c draws r.header payload)
    else (if str_eq c.uplink_data_placement "cookie"
        then in_cookies r (write_payload_to_cookies c draws r.cookies payload)
        else some (r, false))

-- A header chunk that is missing or empty ends the loop.
unfoldable pub header_chunk : Pairs → Bytes → Option Bytes
header_chunk m k = elim (find k m) [ none ↦ none | some [] ↦ none | some (x ∷ xs) ↦ some (x ∷ xs) ]

-- A cookie chunk that is missing does.
unfoldable pub cookie_chunk : Pairs → Bytes → Option Bytes
cookie_chunk m k = find k m

-- The loop of both readers: the chunks joined. Each turn finds another pair, so the fuel is one more
-- than the pairs.
module _ (name : ℕ → Bytes) (chunk : Bytes → Option Bytes) where
  unfoldable pub read_chunks : ℕ → ℕ → List Bytes
  read_chunks zero i = []
  read_chunks (suc fuel) i = elim (chunk (name i)) [
    | none ↦ []
    | some v ↦ v ∷ read_chunks fuel (suc i)
  ]

unfoldable pub concat_bytes : List Bytes → Bytes
concat_bytes [] = []
concat_bytes (p ∷ ps) = p ++ concat_bytes ps

-- What the chunks decode to; nothing if there is none, or they do not decode.
abbrev pub decode_chunks : List Bytes → Bytes
decode_chunks [] = []
decode_chunks (p ∷ ps) = get_or (decode_base64 (concat_bytes (p ∷ ps))) []

-- (*codec).readPayloadFromHeaders
unfoldable pub read_payload_from_headers : Codec → Pairs → Bytes
read_payload_from_headers c h =
    decode_chunks (read_chunks (header_name c) (header_chunk h) (suc (length h)) 0)

-- (*codec).readPayloadFromCookies
unfoldable pub read_payload_from_cookies : Codec → Request → Bytes
read_payload_from_cookies c r =
    decode_chunks (read_chunks (cookie_name c) (cookie_chunk r.cookies) (suc (length r.cookies)) 0)

-- (*codec).decodeUplinkPayload
unfoldable pub decode_uplink : Codec → Request → Bytes → Bytes
decode_uplink c r body =
    if str_eq c.uplink_data_placement "body"
    then body
    else (if str_eq c.uplink_data_placement "header"
        then read_payload_from_headers c r.header
        else (if str_eq c.uplink_data_placement "cookie"
            then read_payload_from_cookies c r
            else (if str_eq c.uplink_data_placement "auto"
                then concat_bytes (
                    read_payload_from_headers c r.header
                    ∷ read_payload_from_cookies c r
                    ∷ body
                    ∷ [])
                else body)))
