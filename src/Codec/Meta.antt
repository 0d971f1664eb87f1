-- ===== src/Codec/Meta.antt =====
-- xhttp/meta.go: where the session ID and the sequence number stand in a request.
pub mod Trip
use sing_xhttp.Common.{
  ℕ, Bool, true, false, ◌||◌, Option, none, some, List, [], ◌∷◌, ◌++◌, if◌then◌else◌, length, drop,
}
use sing_xhttp.Common.Text.{Bytes, String, codes, str_eq}
use sing_xhttp.Common.Strings.{has_prefix, trim_prefix, ends_with, split}
use sing_xhttp.Codec.{Codec}
use sing_xhttp.Codec.Cookie.{add_cookie}
use sing_xhttp.Codec.Request.{Request, Pairs, find, put, canonical, value_or_empty}

abbrev is_empty : Bytes → Bool
is_empty [] = true
is_empty _ = false

-- appendToPath
unfoldable pub append_to_path : Bytes → Bytes → Bytes
append_to_path p seg =
    if is_empty seg then p else (if ends_with p b'/' then p ++ seg else p ++ (b'/' ∷ seg))

-- applyField
unfoldable pub apply_field : Request → String → String → Bytes → Request
unfolding append_to_path put canonical add_cookie
apply_field req placement key value =
    if str_eq placement "path"
    then record req { path = append_to_path req.path value }
    else (if str_eq placement "query"
        then record req { query = put (codes key) value req.query }
        else (if str_eq placement "header"
            then record req { header = put (canonical (codes key)) value req.header }
            else (if str_eq placement "cookie"
                then record req { cookies = add_cookie (codes key) value req.cookies }
                else req)))

-- (*codec).applyMetaToRequest
unfoldable pub apply_meta : Codec → Request → Bytes → Bytes → Request
unfolding apply_field
apply_meta c req session_id seq =
    let with_session =
      if is_empty session_id
      then req
      else apply_field req c.session_placement c.session_key session_id in
    if is_empty seq then with_session else apply_field with_session c.seq_placement c.seq_key seq

-- The closure `take`: the next path segment and those after it.
unfoldable pub take_segment : List Bytes → Bytes × List Bytes
take_segment [] = ([], [])
take_segment (s ∷ ss) = (s, ss)

-- extractField, with the path segments not taken yet; it returns those that are left.
unfoldable pub extract_field : Request → String → String → List Bytes → Bytes × List Bytes
unfolding take_segment find canonical
extract_field r placement key segs =
    if str_eq placement "path"
    then take_segment segs
    else (if str_eq placement "query"
        then (value_or_empty (find (codes key) r.query), segs)
        else (if str_eq placement "header"
            then (value_or_empty (find (canonical (codes key)) r.header), segs)
            else (if str_eq placement "cookie"
                then (value_or_empty (find (codes key) r.cookies), segs)
                else ([], segs))))

-- The segments of the path behind the base path.
unfoldable pub path_segments : Codec → Request → List Bytes
unfolding trim_prefix split
path_segments c r =
    if str_eq c.session_placement "path" || str_eq c.seq_placement "path"
    then (let tail = trim_prefix (trim_prefix r.path c.base_path) (b'/' ∷ []) in
        if is_empty tail then [] else split b'/' tail)
    else []

-- (*codec).extractMetaFromRequest: the session ID and the sequence number; `none` if the path does
-- not start with the base path.
unfoldable pub extract_meta : Codec → Request → Option (Bytes × Bytes)
extract_meta c r =
    if has_prefix r.path c.base_path
    then (let (session_id, segs) =
          extract_field r c.session_placement c.session_key (path_segments c r) in
        let (seq, _) = extract_field r c.seq_placement c.seq_key segs in some (session_id, seq))
    else none
