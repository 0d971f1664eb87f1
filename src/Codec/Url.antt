-- ===== src/Codec/Url.antt =====
-- What the codec uses of net/url: queries printed and parsed, and the query of a printed URL.
pub mod Escape
pub mod Trip
use sing_xhttp.Common.{
  ℕ, ◌+◌, ◌-◌, ◌*◌, ◌/◌, ◌%◌, Bool, true, false, not, ◌||◌, ◌&&◌, Option, none, some, get_or, List,
  [], ◌∷◌, ◌++◌, leb, ltb, ◌==◌, if◌then◌else◌,
}
use sing_xhttp.Common.Text.{Bytes, codes}
use sing_xhttp.Common.Strings.{before, after, split}
use sing_xhttp.Codec.Request.{Pairs}

-- A byte that stands for itself in a query component.
unfoldable pub is_unreserved : ℕ → Bool
is_unreserved c =
    (leb b'a' c && leb c b'z')
    || ((leb b'A' c && leb c b'Z')
        || ((leb b'0' c && leb c b'9') || (c == b'-' || (c == b'_' || (c == b'.' || c == b'~')))))

-- Half a byte as an upper-case digit.
unfoldable pub hex_digit : ℕ → ℕ
hex_digit d = if ltb d 10 then b'0' + d else b'A' + (d - 10)

unfoldable pub hex_value : ℕ → Option ℕ
hex_value c =
    if leb b'0' c && leb c b'9'
    then some (c - b'0')
    else (if leb b'A' c && leb c b'F'
        then some (c - b'A' + 10)
        else (if leb b'a' c && leb c b'f' then some (c - b'a' + 10) else none))

unfoldable pub escape_byte : ℕ → Bytes
escape_byte c =
    if is_unreserved c
    then c ∷ []
    else (if c == b' ' then b'+' ∷ [] else b'%' ∷ hex_digit (c / 16) ∷ hex_digit (c % 16) ∷ [])

-- url.QueryEscape
unfoldable pub escape : Bytes → Bytes
escape [] = []
escape (c ∷ s) = escape_byte c ++ escape s

-- Where in a percent escape the reader stands.
pub data Place : Type 0 where
  plain : Place
  percent : Place
  half : ℕ → Place

abbrev pub push_byte : ℕ → Option Bytes → Option Bytes
push_byte c none = none
push_byte c (some s) = some (c ∷ s)

-- url.QueryUnescape; a percent sign that two digits do not follow is an error.
unfoldable pub unescape_from : Place → Bytes → Option Bytes
unescape_from plain [] = some []
unescape_from percent [] = none
unescape_from (half h) [] = none
unescape_from plain (c ∷ s) = elim (c == b'%') [
  | true ↦ unescape_from percent s
  | false ↦ push_byte (if c == b'+' then b' ' else c) (unescape_from plain s)
]
unescape_from percent (c ∷ s) = elim (hex_value c) [
  | none ↦ none
  | some h ↦ unescape_from (half h) s
]
unescape_from (half h) (c ∷ s) = elim (hex_value c) [
  | none ↦ none
  | some l ↦ push_byte (h * 16 + l) (unescape_from plain s)
]

unfoldable pub unescape : Bytes → Option Bytes
unescape s = unescape_from plain s

-- s < t, byte by byte.
unfoldable pub less : Bytes → Bytes → Bool
less _ [] = false
less [] (y ∷ ys) = true
less (x ∷ xs) (y ∷ ys) = if x == y then less xs ys else ltb x y

-- A pair in front of those whose key is not smaller.
unfoldable pub insert : Bytes × Bytes → Pairs → Pairs
insert (k, v) [] = (k, v) ∷ []
insert (k, v) ((j, w) ∷ m) = if less j k then (j, w) ∷ insert (k, v) m else (k, v) ∷ (j, w) ∷ m

-- By key; the values of a key keep their order.
unfoldable pub sort : Pairs → Pairs
sort [] = []
sort (p ∷ m) = insert p (sort m)

-- Every pair but the last is followed by an ampersand.
unfoldable pub join : Pairs → Bytes
join [] = []
join ((k, v) ∷ []) = escape k ++ (b'=' ∷ escape v)
join ((k, v) ∷ p ∷ m) = (escape k ++ (b'=' ∷ escape v)) ++ (b'&' ∷ join (p ∷ m))

-- url.Values.Encode
unfoldable pub encode_query : Pairs → Bytes
encode_query m = join (sort m)

abbrev pub has_byte : ℕ → Bytes → Bool
has_byte c [] = false
has_byte c (x ∷ xs) = x == c || has_byte c xs

abbrev pub is_empty : Bytes → Bool
is_empty [] = true
is_empty _ = false

abbrev pub both : Option Bytes → Option Bytes → Option (Bytes × Bytes)
both (some k) (some v) = some (k, v)
both _ _ = none

-- One part of a query; a part that has a semicolon, is empty or does not unescape is passed over.
unfoldable pub parse_part : Bytes → Option (Bytes × Bytes)
parse_part p =
    if has_byte b';' p || is_empty p
    then none
    else both (unescape (before b'=' p)) (unescape (get_or (after b'=' p) []))

abbrev pub push_pair : Option (Bytes × Bytes) → Pairs → Pairs
push_pair none m = m
push_pair (some p) m = p ∷ m

unfoldable pub parse_parts : List Bytes → Pairs
parse_parts [] = []
parse_parts (p ∷ ps) = push_pair (parse_part p) (parse_parts ps)

-- url.ParseQuery, its errors ignored as (*URL).Query does.
unfoldable pub parse_query : Bytes → Pairs
parse_query s = parse_parts (split b'&' s)

-- (*URL).String for a URL with a query: `front` is the text up to it.
unfoldable pub url_text : Bytes → Pairs → Bytes
url_text front query = front ++ (b'?' ∷ encode_query query)

-- The query of a URL's text: what stands between the first question mark and the fragment.
unfoldable pub query_of : Bytes → Pairs
query_of text = parse_query (get_or (after b'?' (before b'#' text)) [])
