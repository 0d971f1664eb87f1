-- ===== src/Codec/Padding.antt =====
-- xhttp/meta.go: the padding of requests and responses. The length that HPACK's Huffman code gives
-- a text is a parameter, and so is whether url.Parse accepts a text.
pub mod Tokenish
pub mod Trip
pub mod Accepted
pub mod Generated
use sing_xhttp.Common.{
  ℕ, zero, suc, ◌+◌, ◌-◌, ◌*◌, ◌/◌, ◌%◌, ◌^◌, Bool, true, false, not, ◌||◌, ◌&&◌, Option, none,
  some, get_or, List, [], ◌∷◌, ◌++◌, length, replicate, leb, ltb, ◌==◌, if◌then◌else◌,
}
use sing_xhttp.Common.Int.{
  ℤ, pos, pos_part, ◌+ℤ◌, ◌-ℤ◌, ltb_ℤ, leb_ℤ, is_negative, is_positive, wrap32,
}
use sing_xhttp.Common.Text.{Bytes, String, codes, str_eq}
use sing_xhttp.Common.Strings.{front}
use sing_xhttp.Options.RangeRand.{range_rand}
use sing_xhttp.Codec.{Codec}
use sing_xhttp.Codec.Request.{Request, Pairs, find, put, canonical, value_or_empty}
use sing_xhttp.Codec.Charset.{Draw, drawn, refused, unfinished, rand_string}
use sing_xhttp.Codec.Url.{url_text, query_of, is_empty}

abbrev pub charset_base62 : Bytes
charset_base62 = codes "0123456789ABCDEFGHIJKLMNOPQRSTUVWXYZabcdefghijklmnopqrstuvwxyz"

abbrev pub validation_tolerance : ℕ
validation_tolerance = 2

abbrev pub max_iter : ℕ
max_iter = 150

-- ceil(target / 0.8), at least 1. The quotient by the double nearest to 0.8 rounds to 5 * target / 4
-- where that is an integer, so its ceiling is the exact one.
unfoldable pub char_count : ℕ → ℕ
char_count target = let n = (5 * target + 3) / 4 in if ltb n 1 then 1 else n

-- What one turn of the loop does to the string.
pub data Turn : Type 0 where
  stop : Turn
  grow : Turn
  shrink : Turn

unfoldable pub turn_of : ℕ → ℕ → ℕ → Turn
turn_of cur target len =
    if ltb cur target
    then (if leb (target - cur) validation_tolerance then stop else grow)
    else (if leb (cur - target) validation_tolerance || leb len 1 then stop else shrink)

abbrev pub next_adjust : ℕ → ℕ
next_adjust adjust = if adjust == b'X' then b'Z' else b'X'

-- An X for each byte stands in for a text that is empty.
abbrev pub or_repeat_x : ℕ → Draw → Draw
or_repeat_x n (drawn []) = drawn (replicate n b'X')
or_repeat_x n d = d

module _ (huffman_len : Bytes → ℕ) where
  -- The loop of generateTokenishBase62; its fuel is the turns that the code allows.
  unfoldable pub adjust_length : ℕ → ℕ → ℕ → Bytes → Bytes
  adjust_length zero target adjust s = s
  adjust_length (suc turns) target adjust s = elim (turn_of (huffman_len s) target (length s)) [
    | stop ↦ s
    | grow ↦ adjust_length turns target (next_adjust adjust) (s ++ (adjust ∷ []))
    | shrink ↦ adjust_length turns target adjust (front s)
  ]

  abbrev pub adjusted : ℕ → Draw → Draw
  adjusted target (drawn s) = drawn (adjust_length max_iter target b'X' s)
  adjusted target refused = drawn []
  adjusted target (unfinished s) = unfinished s

  -- generateTokenishBase62
  unfoldable pub generate_tokenish : ℕ → List (Option Bytes) → Draw
  generate_tokenish target reads =
      adjusted target (rand_string (pos (char_count target)) charset_base62 reads)

  -- generatePadding
  unfoldable pub generate_padding : String → ℕ → List (Option Bytes) → Draw
  generate_padding method zero reads = drawn []
  generate_padding method (suc n) reads =
      if str_eq method "tokenish"
      then or_repeat_x (suc n) (generate_tokenish (suc n) reads)
      else drawn (replicate (suc n) b'X')

  -- (*codec).validatePadding
  unfoldable pub validate_padding : Codec → Bytes → Bool
  validate_padding c value =
      let from = c.xpad_range.from in
      let to = c.xpad_range.to in
      let method = if c.xpad_obfs then c.xpad_method else "repeat-x" in
      if is_empty value
      then false
      else (if not (is_positive to)
          then true
          else (if str_eq method "tokenish"
              then (let n = wrap32 (pos (huffman_len value)) in
                  let f = wrap32 (from -ℤ pos validation_tolerance) in
                  let t = wrap32 (to +ℤ pos validation_tolerance) in
                  leb_ℤ (if is_negative f then pos 0 else f) n && leb_ℤ n t)
              else (let n = wrap32 (pos (length value)) in leb_ℤ from n && leb_ℤ n to)))

-- The switch of applyPaddingToRequest, with the text of the request's URL up to its query. AddCookie
-- adds behind the cookies that are there; the padding is of letters and digits, so that it is sent as
-- it is, and the cookie's key is taken to be a token.
unfoldable pub place_padding : Codec → Bytes → Request → Bytes → Request
place_padding c url_front req value =
    let key = codes c.xpad_key in
    let name = canonical (codes c.xpad_header) in
    if not c.xpad_obfs
    then record req {
      header =
          put (codes "Referer") (url_text url_front (put (codes "x_padding") value req.query))
            req.header;
    }
    else (if str_eq c.xpad_placement "header"
        then record req { header = put name value req.header }
        else (if str_eq c.xpad_placement "query"
            then record req { query = put key value req.query }
            else (if str_eq c.xpad_placement "cookie"
                then record req { cookies = req.cookies ++ ((key, value) ∷ []) }
                else (if str_eq c.xpad_placement "query-in-header"
                    then record req {
                      header = put name (url_text url_front (put key value req.query)) req.header;
                    }
                    else req))))

-- What a response holds of it: the header, and the cookies that it sets.
pub record Response : Type 0 where
  pub header : Pairs
  pub set_cookies : Pairs

-- The switch of applyPaddingToResponseHeader.
unfoldable pub place_in_response : Codec → Response → Bytes → Response
place_in_response c w value =
    if not c.xpad_obfs
    then record w { header = put (codes "X-Padding") value w.header }
    else (if str_eq c.xpad_placement "cookie"
        then record w { set_cookies = w.set_cookies ++ ((codes c.xpad_key, value) ∷ []) }
        else (if str_eq c.xpad_placement "header"
              || (str_eq c.xpad_placement "query-in-header" || str_eq c.xpad_placement "query")
            then record w { header = put (canonical (codes c.xpad_header)) value w.header }
            else w))

-- What a finished draw makes of a message; `none` if the draw asks for more random bytes.
abbrev pub with_padding {ℓ} : {M : Type ℓ} → (Bytes → M) → Draw → Option M
with_padding place (drawn value) = some (place value)
with_padding place refused = some (place [])
with_padding place (unfinished s) = none

-- The method of the codec's mode.
abbrev pub method_of : Codec → String
method_of c = if c.xpad_obfs then c.xpad_method else "repeat-x"

module _ (huffman_len : Bytes → ℕ) (c : Codec) (bits : ℕ) (reads : List (Option Bytes)) where
  -- (*codec).applyPaddingToRequest
  unfoldable pub apply_padding : Bytes → Request → Option Request
  apply_padding url_front req =
      let n = range_rand c.xpad_range bits in
      if not (is_positive n)
      then some req
      else with_padding (place_padding c url_front req)
          (generate_padding huffman_len (method_of c) (pos_part n) reads)

  -- (*codec).applyPaddingToResponseHeader
  unfoldable pub apply_padding_to_response : Response → Option Response
  apply_padding_to_response w =
      let n = range_rand c.xpad_range bits in
      if not (is_positive n)
      then some w
      else with_padding (place_in_response c w)
          (generate_padding huffman_len (method_of c) (pos_part n) reads)

-- The first of two values that is not empty.
abbrev pub or_else : Bytes → Bytes → Bytes
or_else [] t = t
or_else (x ∷ s) t = x ∷ s

module _ (parses : Bytes → Bool) where
  -- The value of a key in the query of a URL's text; empty if the text is no URL.
  unfoldable pub value_in_url : Bytes → Bytes → Bytes
  value_in_url key text = if parses text then value_or_empty (find key (query_of text)) else []

  -- (*codec).extractPaddingFromRequest in default mode.
  unfoldable pub extract_default : Request → Bytes
  extract_default r =
      let referrer = value_or_empty (find (codes "Referer") r.header) in
      if not (is_empty referrer) && parses referrer
      then value_in_url (codes "x_padding") referrer
      else value_or_empty (find (codes "x_padding") r.query)

  -- What the padding header gives.
  unfoldable pub extract_from_header : Codec → Bytes → Bytes
  extract_from_header c value =
      if is_empty value
      then []
      else (if str_eq c.xpad_placement "header"
          then value
          else value_in_url (codes c.xpad_key) value)

  -- In obfs mode: cookie, header, query, the first that gives a value.
  unfoldable pub extract_obfs : Codec → Request → Bytes
  extract_obfs c r =
      let key = codes c.xpad_key in
      let name = codes c.xpad_header in
      let cookie = if is_empty key then [] else value_or_empty (find key r.cookies) in
      let header =
        if is_empty name
        then []
        else extract_from_header c (value_or_empty (find (canonical name) r.header)) in
      let query = if is_empty key then [] else value_or_empty (find key r.query) in
      or_else cookie (or_else header query)

  -- (*codec).extractPaddingFromRequest
  unfoldable pub extract_padding : Codec → Request → Bytes
  extract_padding c r = if not c.xpad_obfs then extract_default r else extract_obfs c r
