-- ===== src/Codec/Cookie.antt =====
-- xhttp/meta.go: what applyField uses of net/http to write a cookie, and what a server then reads:
-- AddCookie, sanitizeCookieName, sanitizeCookieValue, readCookies and parseCookieValue. A pair is a
-- cookie that readCookies gives.
pub mod Sent
use sing_xhttp.Common.{
  ℕ, ◌≡◌, ◌≢◌, ◌≤◌, refl, ap, sym, ◌∙◌, Bool, true, false, not, ◌||◌, ◌&&◌, Option, none, some,
  List, [], ◌∷◌, ◌++◌, arith, leb, ◌==◌, if◌then◌else◌, All, All-append, if_false, if_true,
}
use sing_xhttp.Common.Text.{Bytes}
use sing_xhttp.Common.Strings.{before, after, split, split-Lacks, Lacks, ends_with, front}
use sing_xhttp.Codec.Request.{Pairs, all_tokens}

-- validCookieValueByte
abbrev pub is_value_byte : ℕ → Bool
is_value_byte c =
    leb 32 c && (leb c 126 && (not (c == b'"') && (not (c == b';') && not (c == b'\\'))))

unfoldable pub all_value_bytes : Bytes → Bool
all_value_bytes [] = true
all_value_bytes (c ∷ cs) = is_value_byte c && all_value_bytes cs

unfoldable pub valid_bytes : Bytes → Bytes
valid_bytes [] = []
valid_bytes (c ∷ cs) = let rest = valid_bytes cs in if is_value_byte c then c ∷ rest else rest

-- A space or a comma.
unfoldable pub wants_quotes : Bytes → Bool
wants_quotes [] = false
wants_quotes (c ∷ cs) = c == b' ' || (c == b',' || wants_quotes cs)

unfoldable pub sanitize_value : Bytes → Bytes
sanitize_value v =
    let kept = valid_bytes v in
    if wants_quotes kept then (b'"' ∷ []) ++ kept ++ (b'"' ∷ []) else kept

unfoldable pub sanitize_name : Bytes → Bytes
sanitize_name [] = []
sanitize_name (c ∷ cs) = (if c == 10 || c == 13 then b'-' else c) ∷ sanitize_name cs

-- textproto.TrimString
abbrev pub is_blank : ℕ → Bool
is_blank c = c == 32 || (c == 9 || (c == 10 || c == 13))

unfoldable pub trim_start : Bytes → Bytes
trim_start [] = []
trim_start (c ∷ cs) = if is_blank c then trim_start cs else c ∷ cs

unfoldable pub trim_end : Bytes → Bytes
trim_end [] = []
trim_end (c ∷ cs) =
    let rest = trim_end cs in
    elim rest [ [] ↦ if is_blank c then [] else c ∷ [] | d ∷ ds ↦ c ∷ d ∷ ds ]

unfoldable pub trim_blanks : Bytes → Bytes
unfolding trim_start trim_end
trim_blanks s = trim_start (trim_end s)

-- The value without a pair of quotes around it.
unfoldable pub unquote : Bytes → Bytes
unfolding ends_with front
unquote [] = []
unquote (c ∷ cs) = if c == b'"' && ends_with cs b'"' then front cs else c ∷ cs

abbrev pub text_or_empty : Option Bytes → Bytes
text_or_empty none = []
text_or_empty (some s) = s

abbrev pub is_name : Bytes → Bool
is_name [] = false
is_name (c ∷ cs) = all_tokens (c ∷ cs)

-- One part of a Cookie header.
unfoldable pub read_part : Bytes → Pairs
unfolding trim_blanks before after unquote all_value_bytes
read_part part =
    let text = trim_blanks part in
    let name = trim_blanks (before b'=' text) in
    let value = unquote (text_or_empty (after b'=' text)) in
    if is_name name && all_value_bytes value then (name, value) ∷ [] else []

unfoldable pub read_parts : List Bytes → Pairs
read_parts [] = []
read_parts (p ∷ ps) = read_part p ++ read_parts ps

-- What AddCookie appends to the Cookie header, as a server reads it.
unfoldable pub add_cookie : Bytes → Bytes → Pairs → Pairs
unfolding sanitize_name sanitize_value split read_parts
add_cookie name value cookies =
    cookies ++ read_parts (split b';' (sanitize_name name ++ (b'=' ∷ sanitize_value value)))
