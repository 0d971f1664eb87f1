-- ===== src/Codec/Clash.antt =====
-- Two header keys that net/http takes for one.
use sing_xhttp.Common.{ℕ, ◌≡◌, ap, ◌∙◌, inl, inr, true, some, List, ◌∷◌}
use sing_xhttp.Common.Text.{Bytes, String}
use sing_xhttp.Common.Strings.{has_prefix}
use sing_xhttp.Codec.{Codec}
use sing_xhttp.Codec.Request.{Request, value_or_empty, find, put, find-put_self}
use sing_xhttp.Codec.Meta.{apply_field, apply_meta, extract_field, extract_meta, path_segments}
use sing_xhttp.Codec.Meta.Trip.Fields.{name_at, path-apply}
use sing_xhttp.Codec.Meta.Trip.{extract_here}

header_put :
    (r : Request) (placement key : String) (v : Bytes)
    → placement ≡ "header"
    → (apply_field r placement key v).header ≡ put (name_at "header" key) v r.header
unfolding apply_field
header_put r placement key v e = rw e

header_read :
    (r : Request) (placement key : String) (segs : List Bytes)
    → placement ≡ "header"
    → extract_field r placement key segs
      ≡ (value_or_empty (find (name_at "header" key) r.header), segs)
unfolding extract_field
header_read r placement key segs e = rw e

-- With both fields in headers whose keys have one canonical name, as keys that differ only in their
-- case do, and a request under the base path: the sequence number overwrites the session ID, and
-- the server reads it as both. Both texts are not empty.
pub same_header :
    (c : Codec) (r : Request) (x y : ℕ) (xs ys : Bytes)
    → c.session_placement ≡ "header"
    → c.seq_placement ≡ "header"
    → name_at "header" c.session_key ≡ name_at "header" c.seq_key
    → has_prefix r.path c.base_path ≡ true
    → extract_meta c (apply_meta c r (x ∷ xs) (y ∷ ys)) ≡ some (y ∷ ys, y ∷ ys)
unfolding apply_meta
same_header c r x y xs ys e k same on_base =
    let first = apply_field r c.session_placement c.session_key (x ∷ xs) in
    let sent = apply_field first c.seq_placement c.seq_key (y ∷ ys) in
    let held : find (name_at "header" c.seq_key) sent.header ≡ some (y ∷ ys) =
      ap (find (name_at "header" c.seq_key)) (header_put first c.seq_placement c.seq_key (y ∷ ys) k)
      ∙ find-put_self (name_at "header" c.seq_key) (y ∷ ys) first.header in
    let path : sent.path ≡ r.path =
      path-apply first c.seq_placement c.seq_key (y ∷ ys) (inr (inl k))
      ∙ path-apply r c.session_placement c.session_key (x ∷ xs) (inr (inl e)) in
    extract_here c sent (ap (λ p. has_prefix p c.base_path) path ∙ on_base)
      (header_read sent c.session_placement c.session_key (path_segments c sent) e
        ∙ ap (λ n. (value_or_empty (find n sent.header), path_segments c sent)) same
        ∙ ap (λ v. (value_or_empty v, path_segments c sent)) held)
      (header_read sent c.seq_placement c.seq_key (path_segments c sent) k
        ∙ ap (λ v. (value_or_empty v, path_segments c sent)) held)
