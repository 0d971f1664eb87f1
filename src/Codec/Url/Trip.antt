-- ===== src/Codec/Url/Trip.antt =====
-- A query that is printed into a URL is parsed out of it, pair by pair.
use sing_xhttp.Common.{
  ℕ, ◌≡◌, ◌≢◌, refl, ap, ◌∙◌, inl, inr, true, false, some, [], ◌∷◌, ◌++◌, arith, All, All-append,
  Bool-cases,
}
use sing_xhttp.Common.Text.{Bytes}
use sing_xhttp.Common.Strings.{Lacks, before, after, split, split-Lacks, split-append, bytes_eq_iff}
use sing_xhttp.Codec.Request.{Pairs, find}
use sing_xhttp.Codec.Url.{
  escape, unescape, less, insert, sort, join, encode_query, has_byte, is_empty, both, parse_part,
  push_pair, parse_parts, parse_query, url_text, query_of,
}
use sing_xhttp.Codec.Url.Escape.{AreBytes, IsReserved, escape-Lacks, unescape-escape}

-- Names and values are bytes.
abbrev pub PairsOfBytes : Pairs → Type 0
PairsOfBytes = All (λ p. AreBytes p.0 × AreBytes p.1)

less-ne : (s t : Bytes) → less s t ≡ true → s ≢ t
unfolding less
less-ne s [] h e = absurd (ground arith)
less-ne [] (y ∷ ys) h e = absurd (ground arith)
less-ne (x ∷ xs) (y ∷ ys) h e = absurd (ground (arith, less-ne xs ys))

find-insert : (k : Bytes) (p : Bytes × Bytes) (m : Pairs) → find k (insert p m) ≡ find k (p ∷ m)
unfolding find insert
find-insert k (j, v) [] = refl
find-insert k (j, v) ((i, w) ∷ m) =
    ground (arith, find-insert k (j, v) m, less-ne i j, bytes_eq_iff i k, bytes_eq_iff j k)

find-cons :
    (k : Bytes) (p : Bytes × Bytes) (m n : Pairs)
    → find k m ≡ find k n
    → find k (p ∷ m) ≡ find k (p ∷ n)
unfolding find
find-cons k (j, v) m n e = ground (arith, e)

pub find-sort : (k : Bytes) (m : Pairs) → find k (sort m) ≡ find k m
unfolding sort
find-sort k [] = refl
find-sort k (p ∷ m) = find-insert k p (sort m) ∙ find-cons k p (sort m) m (find-sort k m)

insert-PairsOfBytes :
    (p : Bytes × Bytes) (m : Pairs)
    → AreBytes p.0 × AreBytes p.1
    → PairsOfBytes m
    → PairsOfBytes (insert p m)
unfolding insert
insert-PairsOfBytes (k, v) [] h g = (h, tt)
insert-PairsOfBytes (k, v) ((j, w) ∷ m) h g = elim (Bool-cases (less j k)) [
  | inl e ↦ rw (e, insert) (g.0, insert-PairsOfBytes (k, v) m h g.1)
  | inr e ↦ rw (e, insert) (h, g)
]

sort-PairsOfBytes : (m : Pairs) → PairsOfBytes m → PairsOfBytes (sort m)
unfolding sort
sort-PairsOfBytes [] h = tt
sort-PairsOfBytes (p ∷ m) h = insert-PairsOfBytes p (sort m) h.0 (sort-PairsOfBytes m h.1)

pub before-append : (c : ℕ) (s t : Bytes) → Lacks c s → before c (s ++ (c ∷ t)) ≡ s
unfolding before
before-append c [] t h = ground arith
before-append c (x ∷ s) t h = ground (arith, before-append c s t h.1)

pub before-Lacks : (c : ℕ) (s : Bytes) → Lacks c s → before c s ≡ s
unfolding before
before-Lacks c [] h = refl
before-Lacks c (x ∷ s) h = ground (arith, before-Lacks c s h.1)

pub after-append : (c : ℕ) (s t : Bytes) → Lacks c s → after c (s ++ (c ∷ t)) ≡ some t
unfolding after
after-append c [] t h = ground arith
after-append c (x ∷ s) t h = ground (arith, after-append c s t h.1)

has_byte-Lacks : (c : ℕ) (s : Bytes) → Lacks c s → has_byte c s ≡ false
has_byte-Lacks c [] h = refl
has_byte-Lacks c (x ∷ s) h = ground (arith, has_byte-Lacks c s h.1)

-- For a text that is given.
pub has_byte_no : (c : ℕ) (s : Bytes) → has_byte c s ≡ false → Lacks c s
has_byte_no c [] h = tt
has_byte_no c (x ∷ xs) h = (ground (arith, h), has_byte_no c xs (ground (arith, h)))

-- One part of a query.
abbrev part : Bytes → Bytes → Bytes
part k v = escape k ++ (b'=' ∷ escape v)

part-Lacks :
    (x : ℕ) (k v : Bytes) → IsReserved x → b'=' ≢ x → AreBytes k → AreBytes v → Lacks x (part k v)
part-Lacks x k v r ne h g =
    All-append (λ y. y ≢ x) (escape k) (b'=' ∷ escape v) (escape-Lacks x k r h)
      (ne, escape-Lacks x v r g)

amp-IsReserved : IsReserved b'&'
unfolding sing_xhttp.Codec.Url.is_unreserved
amp-IsReserved = (refl, (λ e. omega arith), λ e. omega arith)

semicolon-IsReserved : IsReserved b';'
unfolding sing_xhttp.Codec.Url.is_unreserved
semicolon-IsReserved = (refl, (λ e. omega arith), λ e. omega arith)

equals-IsReserved : IsReserved b'='
unfolding sing_xhttp.Codec.Url.is_unreserved
equals-IsReserved = (refl, (λ e. omega arith), λ e. omega arith)

hash-IsReserved : IsReserved b'#'
unfolding sing_xhttp.Codec.Url.is_unreserved
hash-IsReserved = (refl, (λ e. omega arith), λ e. omega arith)

part-is_empty : (a b : Bytes) → is_empty (a ++ (b'=' ∷ b)) ≡ false
part-is_empty [] b = refl
part-is_empty (x ∷ a) b = refl

parse_part-part : (k v : Bytes) → AreBytes k → AreBytes v → parse_part (part k v) ≡ some (k, v)
unfolding parse_part
parse_part-part k v h g =
    let no_semicolon =
      has_byte-Lacks b';' (part k v)
        (part-Lacks b';' k v semicolon-IsReserved (λ e. omega arith) h g) in
    let lacks = escape-Lacks b'=' k equals-IsReserved h in
    rw
      (
        no_semicolon,
        part-is_empty (escape k) (escape v),
        before-append b'=' (escape k) (escape v) lacks,
        after-append b'=' (escape k) (escape v) lacks,
        unescape-escape k h,
        unescape-escape v g,
      )
      refl

part-Lacks_amp : (k v : Bytes) → AreBytes k → AreBytes v → Lacks b'&' (part k v)
part-Lacks_amp k v h g = part-Lacks b'&' k v amp-IsReserved (λ e. omega arith) h g

parse_empty : parse_query (join []) ≡ []
unfolding parse_query parse_parts join split parse_part
parse_empty = refl

parse-join : (m : Pairs) → PairsOfBytes m → parse_query (join m) ≡ m
unfolding parse_query parse_parts join
parse-join [] h = parse_empty
parse-join ((k, v) ∷ []) h =
    let lacks = part-Lacks_amp k v h.0.0 h.0.1 in
    rw (split-Lacks b'&' (part k v) lacks, parse_part-part k v h.0.0 h.0.1) refl
parse-join ((k, v) ∷ p ∷ m) h =
    let lacks = part-Lacks_amp k v h.0.0 h.0.1 in
    rw (split-append b'&' (part k v) (join (p ∷ m)) lacks, parse_part-part k v h.0.0 h.0.1)
      (ap (◌∷◌ (k, v)) (parse-join (p ∷ m) h.1))

join-Lacks_hash : (m : Pairs) → PairsOfBytes m → Lacks b'#' (join m)
unfolding join
join-Lacks_hash [] h = tt
join-Lacks_hash ((k, v) ∷ []) h = part-Lacks b'#' k v hash-IsReserved (λ e. omega arith) h.0.0 h.0.1
join-Lacks_hash ((k, v) ∷ p ∷ m) h =
    All-append (λ y. y ≢ b'#') (part k v) (b'&' ∷ join (p ∷ m))
      (part-Lacks b'#' k v hash-IsReserved (λ e. omega arith) h.0.0 h.0.1)
      ((λ e. omega arith), join-Lacks_hash (p ∷ m) h.1)

parse-encode : (m : Pairs) → PairsOfBytes m → parse_query (encode_query m) ≡ sort m
unfolding encode_query
parse-encode m h = parse-join (sort m) (sort-PairsOfBytes m h)

-- The query read from the printed URL.
pub query_of-url_text :
    (front : Bytes) (m : Pairs)
    → Lacks b'?' front
    → Lacks b'#' front
    → PairsOfBytes m
    → query_of (url_text front m) ≡ sort m
unfolding query_of url_text encode_query
query_of-url_text front m h g bytes =
    let q = join (sort m) in
    let no_fragment = before-Lacks b'#' (front ++ (b'?' ∷ q)) (
      All-append (λ y. y ≢ b'#') front (b'?' ∷ q) g
        ((λ e. omega arith), join-Lacks_hash (sort m) (sort-PairsOfBytes m bytes))) in
    rw (no_fragment, after-append b'?' front q h) (parse-join (sort m) (sort-PairsOfBytes m bytes))
