-- ===== src/Server/Host.antt =====
-- xhttp/server.go: isValidHTTPHost, with net.SplitHostPort of the standard library.
use sing_xhttp.Common.{◌+◌, Bool, ◌&&◌, ◌||◌, Option, none, some, [], ◌∷◌, leb, ◌==◌, if◌then◌else◌}
use sing_xhttp.Common.Text.{Bytes}
use sing_xhttp.Common.Strings.{bytes_eq, before, after}
use sing_xhttp.Codec.Url.{has_byte}

-- strings.ToLower of an ASCII text.
unfoldable pub to_lower : Bytes → Bytes
to_lower [] = []
to_lower (c ∷ s) = (if leb b'A' c && leb c b'Z' then c + 32 else c) ∷ to_lower s

-- What stands behind a closing bracket: a port, the rest of the text.
unfoldable pub bracketed : Bytes → Bytes → Option Bytes
bracketed inner [] = none
bracketed inner (c ∷ port) =
    if c == b':'
    then (if has_byte b':' port || has_byte b']' port then none else some inner)
    else none

-- The host of net.SplitHostPort, `none` if it gives an error.
unfoldable pub split_host : Bytes → Option Bytes
split_host [] = none
split_host (c ∷ s) =
    if c == b'['
    then (if has_byte b'[' s
        then none
        else elim (after b']' s) [ none ↦ none | some rest ↦ bracketed (before b']' s) rest ])
    else elim (after b':' (c ∷ s)) [
      | none ↦ none
      | some port ↦
          if has_byte b':' port || (has_byte b'[' (c ∷ s) || has_byte b']' (c ∷ s))
          then none
          else some (before b':' (c ∷ s))
    ]

-- isValidHTTPHost
unfoldable pub is_valid_http_host : Bytes → Bytes → Bool
is_valid_http_host request_host config_host =
    let r = to_lower request_host in
    let c = to_lower config_host in
    if has_byte b':' r
    then elim (split_host r) [ none ↦ bytes_eq r c | some h ↦ bytes_eq h c ]
    else bytes_eq r c
