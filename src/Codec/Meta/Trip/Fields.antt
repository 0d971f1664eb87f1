-- ===== src/Codec/Meta/Trip/Fields.antt =====
-- One field in a query, a header or a cookie.
use sing_xhttp.Common.{
  if◌then◌else◌, Bool-cases, ◌≡◌, refl, sym, ◌∙◌, ◌≢◌, inl, inr, Option, none, some, List, [], ◌∷◌,
  arith, ap, true, All,
}
use sing_xhttp.Common.Text.{Bytes, String, codes, str_eq, str_eq_iff}
use sing_xhttp.Common.Strings.{OneOf}
use sing_xhttp.Codec.Request.{
  Request, find, canonical, value_or_empty, find-put_self, find-put_ne, find-add_self, find-add_ne,
}
use sing_xhttp.Codec.Cookie.{is_name}
use sing_xhttp.Codec.Cookie.Sent.{IsVisible, add_cookie_sent}
use sing_xhttp.Codec.Meta.{apply_field, extract_field}

-- A placement other than the path.
abbrev pub keyed : List String
keyed = "query" ∷ "header" ∷ "cookie" ∷ []

-- The name under which a keyed placement files a key.
abbrev pub name_at : String → String → Bytes
name_at placement key = if str_eq placement "header" then canonical (codes key) else codes key

-- What the request holds for a key.
unfoldable pub held_at : Request → String → String → Option Bytes
held_at r placement key =
    if str_eq placement "query"
    then find (codes key) r.query
    else (if str_eq placement "header"
        then find (canonical (codes key)) r.header
        else find (codes key) r.cookies)

pub extract-held :
    (r : Request) (placement key : String) (segs : List Bytes)
    → OneOf placement keyed
    → extract_field r placement key segs ≡ (value_or_empty (held_at r placement key), segs)
unfolding held_at
extract-held r placement key segs (inl e) = rw e (unfold extract_field in refl)
extract-held r placement key segs (inr (inl e)) = rw e (unfold extract_field in refl)
extract-held r placement key segs (inr (inr (inl e))) = rw e (unfold extract_field in refl)
extract-held r placement key segs (inr (inr (inr x))) = elim x [ ]

-- If the field goes into a cookie, its key is a token, and its value is of visible characters.
abbrev pub IsCookieSafe : String → String → Bytes → Type 0
IsCookieSafe placement key v = (placement ≡ "cookie" → is_name (codes key) ≡ true) × All IsVisible v

-- What was written is held.
pub held-apply_self :
    (r : Request) (placement key : String) (v : Bytes)
    → OneOf placement keyed
    → IsCookieSafe placement key v
    → held_at r placement key ≡ none
    → held_at (apply_field r placement key v) placement key ≡ some v
held-apply_self r placement key v (inl e) safe free =
    rw e (unfold held_at apply_field in find-put_self (codes key) v r.query)
held-apply_self r placement key v (inr (inl e)) safe free =
    rw e (unfold held_at apply_field in find-put_self (canonical (codes key)) v r.header)
held-apply_self r placement key v (inr (inr (inl e))) safe free = rw e (
    unfold held_at apply_field in
    ap (find (codes key)) (add_cookie_sent (codes key) v r.cookies (safe.0 e) safe.1)
    ∙ find-add_self (codes key) v r.cookies (rw e at free))
held-apply_self r placement key v (inr (inr (inr x))) safe free = elim x [ ]

module _ (r : Request) (key other other_key : String) (v : Bytes) where
  query_apart :
      ("query" ≡ other → codes key ≢ name_at other other_key)
      → find (codes key) (apply_field r other other_key v).query ≡ find (codes key) r.query
  unfolding apply_field
  query_apart apart = elim (Bool-cases (str_eq other "query")) [
    | inl t ↦
        let e = (str_eq_iff other "query").0 t in
        rw e (find-put_ne (codes key) (codes other_key) v r.query (rw e at (apart (sym e))))
    | inr f ↦ ground (arith, f)
  ]

  header_apart :
      ("header" ≡ other → canonical (codes key) ≢ name_at other other_key)
      → find (canonical (codes key)) (apply_field r other other_key v).header
        ≡ find (canonical (codes key)) r.header
  unfolding apply_field
  header_apart apart = elim (Bool-cases (str_eq other "header")) [
    | inl t ↦
        let e = (str_eq_iff other "header").0 t in
        rw e (
          find-put_ne (canonical (codes key)) (canonical (codes other_key)) v r.header
            (rw e at (apart (sym e))))
    | inr f ↦ ground (arith, f)
  ]

  cookie_apart :
      IsCookieSafe other other_key v
      → ("cookie" ≡ other → codes key ≢ name_at other other_key)
      → find (codes key) (apply_field r other other_key v).cookies ≡ find (codes key) r.cookies
  unfolding apply_field
  cookie_apart safe apart = elim (Bool-cases (str_eq other "cookie")) [
    | inl t ↦
        let e = (str_eq_iff other "cookie").0 t in
        rw (e, add_cookie_sent (codes other_key) v r.cookies (safe.0 e) safe.1)
          (find-add_ne (codes key) (codes other_key) v r.cookies (rw e at (apart (sym e))))
    | inr f ↦ ground (arith, f)
  ]

-- Writing one field leaves another alone, unless both have one place and one name.
pub held-apply_ne :
    (r : Request) (placement key other other_key : String) (v : Bytes)
    → OneOf placement keyed
    → IsCookieSafe other other_key v
    → (placement ≡ other → name_at placement key ≢ name_at other other_key)
    → held_at (apply_field r other other_key v) placement key ≡ held_at r placement key
unfolding held_at
held-apply_ne r placement key other other_key v (inl e) safe apart =
    rw e (query_apart r key other other_key v (rw e at apart))
held-apply_ne r placement key other other_key v (inr (inl e)) safe apart =
    rw e (header_apart r key other other_key v (rw e at apart))
held-apply_ne r placement key other other_key v (inr (inr (inl e))) safe apart =
    rw e (cookie_apart r key other other_key v safe (rw e at apart))
held-apply_ne r placement key other other_key v (inr (inr (inr x))) safe apart = elim x [ ]

-- A keyed placement does not touch the path.
pub path-apply :
    (r : Request) (placement key : String) (v : Bytes)
    → OneOf placement keyed
    → (apply_field r placement key v).path ≡ r.path
unfolding apply_field
path-apply r placement key v (inl e) = rw e
path-apply r placement key v (inr (inl e)) = rw e
path-apply r placement key v (inr (inr (inl e))) = rw e
path-apply r placement key v (inr (inr (inr x))) = elim x [ ]

pub keyed-ne-path : (placement : String) → OneOf placement keyed → placement ≢ "path"
keyed-ne-path placement (inl e) k = cc ((str_eq_iff "query" "path").1 (sym e ∙ k))
keyed-ne-path placement (inr (inl e)) k = cc ((str_eq_iff "header" "path").1 (sym e ∙ k))
keyed-ne-path placement (inr (inr (inl e))) k = cc ((str_eq_iff "cookie" "path").1 (sym e ∙ k))
keyed-ne-path placement (inr (inr (inr x))) k = elim x [ ]
