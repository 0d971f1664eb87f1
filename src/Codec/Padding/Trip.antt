-- ===== src/Codec/Padding/Trip.antt =====
-- The server finds the padding that the client placed, and accepts its length.
use sing_xhttp.Common.{
  if-not-true, ◌≡◌, ◌≢◌, refl, ap, sym, ◌∙◌, inl, inr, Bool, true, false, Option, none, some, List,
  [], ◌∷◌, ◌++◌, arith, Bool-cases, All-append,
}
use sing_xhttp.Common.Text.{Bytes, String, codes, str_eq, str_eq_iff}
use sing_xhttp.Common.Strings.{Lacks, OneOf}
use sing_xhttp.Codec.{Codec}
use sing_xhttp.Codec.Request.{
  Request, Pairs, find, put, without, canonical, value_or_empty, find-put_self, find-add_self,
}
use sing_xhttp.Codec.Url.{url_text, is_empty}
use sing_xhttp.Codec.Url.Escape.{AreBytes, all_bytes-AreBytes}
use sing_xhttp.Codec.Url.Trip.{PairsOfBytes, find-sort, query_of-url_text}
use sing_xhttp.Codec.Padding.{
  place_padding, value_in_url, extract_default, extract_from_header, extract_obfs, extract_padding,
  or_else,
}

-- A request that holds no padding yet, whose URL the client prints as `front` and a query. The
-- texts so printed are URLs.
pub record Unpadded (parses : Bytes → Bool) (c : Codec) (front : Bytes) (r : Request) : Type 0 where
  pub one_query : Lacks b'?' front
  pub no_fragment : Lacks b'#' front
  pub are_bytes : PairsOfBytes r.query
  pub accepts : (q : Pairs) → parses (url_text front q) ≡ true
  pub key_bytes : AreBytes (codes c.xpad_key)
  pub has_key : c.xpad_obfs ≡ true → is_empty (codes c.xpad_key) ≡ false
  pub has_header : c.xpad_obfs ≡ true → is_empty (codes c.xpad_header) ≡ false
  pub no_cookie : c.xpad_obfs ≡ true → find (codes c.xpad_key) r.cookies ≡ none
  pub no_header : c.xpad_obfs ≡ true → find (canonical (codes c.xpad_header)) r.header ≡ none

abbrev pub padding_places : List String
padding_places = "header" ∷ "query" ∷ "cookie" ∷ "query-in-header" ∷ []

without-PairsOfBytes : (k : Bytes) (m : Pairs) → PairsOfBytes m → PairsOfBytes (without k m)
unfolding without
without-PairsOfBytes k [] h = tt
without-PairsOfBytes k ((j, v) ∷ m) h = ground (arith, without-PairsOfBytes k m h.1, h.0)

put-PairsOfBytes :
    (k v : Bytes) (m : Pairs) → AreBytes k → AreBytes v → PairsOfBytes m → PairsOfBytes (put k v m)
unfolding put
put-PairsOfBytes k v m h g b =
    All-append (λ p. AreBytes p.0 × AreBytes p.1) (without k m) ((k, v) ∷ [])
      (without-PairsOfBytes k m b) ((h, g), tt)

url_text-is_empty : (front : Bytes) (q : Pairs) → is_empty (url_text front q) ≡ false
unfolding url_text
url_text-is_empty [] q = refl
url_text-is_empty (x ∷ front) q = refl

in_url_is_not_header : (p : String) → p ≡ "query-in-header" → p ≢ "header"
in_url_is_not_header p e k = cc ((str_eq_iff "query-in-header" "header").1 (sym e ∙ k))

or_else_first : (v q : Bytes) → is_empty v ≡ false → or_else v q ≡ v
or_else_first [] q h = cc
or_else_first (x ∷ v) q h = refl

value_of_some : (o : Option Bytes) (v : Bytes) → o ≡ some v → value_or_empty o ≡ v
value_of_some o v e = rw e refl

value_of_none : (o : Option Bytes) → o ≡ none → value_or_empty o ≡ []
value_of_none o e = rw e refl

module _ (parses : Bytes → Bool) (c : Codec) (front : Bytes) (r : Request)
    (fresh : Unpadded parses c front r) (v : Bytes) (bytes : AreBytes v) where
  -- A value put into a printed URL.
  in_url : (k : Bytes) → AreBytes k → value_in_url parses k (url_text front (put k v r.query)) ≡ v
  unfolding value_in_url
  in_url k h =
      let q = put k v r.query in
      let read =
        query_of-url_text front q fresh.one_query fresh.no_fragment
          (put-PairsOfBytes k v r.query h bytes fresh.are_bytes) in
      rw (fresh.accepts q, read, find-sort k q, find-put_self k v r.query) refl

  default_mode : c.xpad_obfs ≡ false → extract_padding parses c (place_padding c front r v) ≡ v
  unfolding extract_padding extract_default place_padding
  default_mode e =
      let text = url_text front (put (codes "x_padding") v r.query) in
      rw
        (
          e,
          find-put_self (codes "Referer") text r.header,
          url_text-is_empty front (put (codes "x_padding") v r.query),
          fresh.accepts (put (codes "x_padding") v r.query),
        )
        (in_url (codes "x_padding") (all_bytes-AreBytes (codes "x_padding") refl))

  abbrev placed : Request
  placed = place_padding c front r v

  abbrev key : Bytes
  key = codes c.xpad_key

  abbrev name : Bytes
  name = canonical (codes c.xpad_header)

  -- What the three places of a request give in obfs mode.
  obfs_read :
      (s : Request) {cookie header query : Bytes}
      → value_or_empty (find key s.cookies) ≡ cookie
      → extract_from_header parses c (value_or_empty (find name s.header)) ≡ header
      → value_or_empty (find key s.query) ≡ query
      → c.xpad_obfs ≡ true
      → extract_padding parses c s ≡ or_else cookie (or_else header query)
  unfolding extract_padding extract_obfs
  obfs_read s a b d e =
      if-not-true c.xpad_obfs (extract_default parses s) (extract_obfs parses c s) e
      ∙ rw (fresh.has_key e, fresh.has_header e, a, b, d) refl

  nothing_in_header : extract_from_header parses c [] ≡ []
  unfolding extract_from_header
  nothing_in_header = refl

  no_header_value :
      c.xpad_obfs ≡ true → extract_from_header parses c (value_or_empty (find name r.header)) ≡ []
  unfolding extract_from_header
  no_header_value e =
      ap (λ o. extract_from_header parses c (value_or_empty o)) (fresh.no_header e)
      ∙ nothing_in_header

  full_header :
      (h : Bytes)
      → is_empty h ≡ false
      → c.xpad_placement ≢ "header"
      → extract_from_header parses c h ≡ value_in_url parses key h
  unfolding extract_from_header
  full_header h e ne = elim (Bool-cases (str_eq c.xpad_placement "header")) [
    | inl k ↦ absurd (ne ((str_eq_iff c.xpad_placement "header").0 k))
    | inr k ↦ rw (e, k) refl
  ]

  -- What the placement makes of the request.
  placed_header :
      c.xpad_obfs ≡ true
      → c.xpad_placement ≡ "header"
      → placed ≡ record r { header = put name v r.header }
  unfolding place_padding
  placed_header e k = if-not-true c.xpad_obfs _ _ e ∙ rw k refl

  placed_query :
      c.xpad_obfs ≡ true
      → c.xpad_placement ≡ "query"
      → placed ≡ record r { query = put key v r.query }
  unfolding place_padding
  placed_query e k = if-not-true c.xpad_obfs _ _ e ∙ rw k refl

  placed_cookie :
      c.xpad_obfs ≡ true
      → c.xpad_placement ≡ "cookie"
      → placed ≡ record r { cookies = r.cookies ++ ((key, v) ∷ []) }
  unfolding place_padding
  placed_cookie e k = if-not-true c.xpad_obfs _ _ e ∙ rw k refl

  placed_in_url :
      c.xpad_obfs ≡ true
      → c.xpad_placement ≡ "query-in-header"
      → placed ≡ record r { header = put name (url_text front (put key v r.query)) r.header }
  unfolding place_padding
  placed_in_url e k = if-not-true c.xpad_obfs _ _ e ∙ rw k refl

  header_value :
      is_empty v ≡ false → c.xpad_placement ≡ "header" → extract_from_header parses c v ≡ v
  unfolding extract_from_header
  header_value full k = rw (full, k) refl

  module _ (full : is_empty v ≡ false) (obfs : c.xpad_obfs ≡ true) where
    abbrev Found : Type 0
    Found = extract_padding parses c placed ≡ v

    no_cookie_value : value_or_empty (find key r.cookies) ≡ []
    no_cookie_value = value_of_none _ (fresh.no_cookie obfs)

    found_header : c.xpad_placement ≡ "header" → Found
    found_header k =
        let s = record r { header = put name v r.header } in
        let here =
          ap (extract_from_header parses c) (value_of_some _ v (find-put_self name v r.header))
          ∙ header_value full k in
        ap (extract_padding parses c) (placed_header obfs k)
        ∙ obfs_read s no_cookie_value here refl obfs
        ∙ or_else_first v _ full

    found_query : c.xpad_placement ≡ "query" → Found
    found_query k =
        let s = record r { query = put key v r.query } in
        ap (extract_padding parses c) (placed_query obfs k)
        ∙ obfs_read s no_cookie_value (no_header_value obfs)
            (value_of_some _ v (find-put_self key v r.query)) obfs

    found_cookie : c.xpad_placement ≡ "cookie" → Found
    found_cookie k =
        let s = record r { cookies = r.cookies ++ ((key, v) ∷ []) } in
        ap (extract_padding parses c) (placed_cookie obfs k)
        ∙ obfs_read s (value_of_some _ v (find-add_self key v r.cookies (fresh.no_cookie obfs)))
            (no_header_value obfs) refl obfs
        ∙ or_else_first v _ full

    found_in_url : c.xpad_placement ≡ "query-in-header" → Found
    found_in_url k =
        let text = url_text front (put key v r.query) in
        let s = record r { header = put name text r.header } in
        let here =
          ap (extract_from_header parses c)
            (value_of_some _ text (find-put_self name text r.header))
          ∙ full_header text (url_text-is_empty front (put key v r.query))
              (in_url_is_not_header c.xpad_placement k)
          ∙ in_url key fresh.key_bytes in
        ap (extract_padding parses c) (placed_in_url obfs k)
        ∙ obfs_read s no_cookie_value here refl obfs
        ∙ or_else_first v _ full

-- Whatever the mode and the placement, the server extracts the value that the client placed, from a
-- request that holds no padding yet. The value is not empty, and the URL is one that parses.
pub extract-place :
    (parses : Bytes → Bool) (c : Codec) (front : Bytes) (r : Request) (v : Bytes)
    → Unpadded parses c front r
    → AreBytes v
    → is_empty v ≡ false
    → (c.xpad_obfs ≡ true → OneOf c.xpad_placement padding_places)
    → extract_padding parses c (place_padding c front r v) ≡ v
extract-place parses c front r v fresh bytes full place = elim (Bool-cases c.xpad_obfs) [
  | inr e ↦ default_mode parses c front r fresh v bytes e
  | inl e ↦ elim (place e) [
    | inl k ↦ found_header parses c front r fresh v bytes full e k
    | inr (inl k) ↦ found_query parses c front r fresh v bytes full e k
    | inr (inr (inl k)) ↦ found_cookie parses c front r fresh v bytes full e k
    | inr (inr (inr (inl k))) ↦ found_in_url parses c front r fresh v bytes full e k
    | inr (inr (inr (inr x))) ↦ elim x [ ]
  ]
]
