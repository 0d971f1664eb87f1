-- ===== src/Codec/Request.antt =====
-- What the codec uses of net/http and net/url: the parts of a request that carry a field. A query
-- is its decoded pairs; cookies are the pairs that readCookies gives of the Cookie header.
use sing_xhttp.Common.{
  ℕ, ◌+◌, ◌-◌, ◌≡◌, refl, sym, ◌∙◌, Option-cases, ◌≢◌, inl, inr, Bool, true, false, not, ◌||◌, ◌&&◌,
  Option, none, some, List, [], ◌∷◌, ◌++◌, arith, leb, ◌==◌, if◌then◌else◌,
}
use sing_xhttp.Common.Text.{Bytes, codes}
use sing_xhttp.Common.Strings.{bytes_eq, bytes_eq_iff}

abbrev pub Pairs : Type 0
Pairs = List (Bytes × Bytes)

pub record Request : Type 0 where
  pub path : Bytes
  pub query : Pairs
  pub header : Pairs
  pub cookies : Pairs

-- The value of the first pair of a name.
unfoldable pub find : Bytes → Pairs → Option Bytes
find k [] = none
find k ((j, v) ∷ m) = if bytes_eq j k then some v else find k m

abbrev pub value_or_empty : Option Bytes → Bytes
value_or_empty none = []
value_or_empty (some v) = v

-- All pairs but those of a name.
unfoldable pub without : Bytes → Pairs → Pairs
without k [] = []
without k ((j, v) ∷ m) = if bytes_eq j k then without k m else (j, v) ∷ without k m

-- url.Values.Set; http.Header.Set at a canonical name.
unfoldable pub put : Bytes → Bytes → Pairs → Pairs
put k v m = without k m ++ ((k, v) ∷ [])

-- The bytes of a header name.
abbrev is_lower : ℕ → Bool
is_lower c = leb b'a' c && leb c b'z'

abbrev is_upper : ℕ → Bool
is_upper c = leb b'A' c && leb c b'Z'

abbrev is_digit : ℕ → Bool
is_digit c = leb b'0' c && leb c b'9'

abbrev member : ℕ → Bytes → Bool
member c [] = false
member c (x ∷ xs) = x == c || member c xs

abbrev pub is_token : ℕ → Bool
is_token c = is_lower c || (is_upper c || (is_digit c || member c (codes "!#$%&'*+-.^_`|~")))

unfoldable pub all_tokens : Bytes → Bool
all_tokens [] = true
all_tokens (c ∷ cs) = is_token c && all_tokens cs

-- Upper case at the start and after a dash, lower case elsewhere.
unfoldable pub in_canon : Bool → Bytes → Bytes
in_canon upper [] = []
in_canon upper (c ∷ cs) =
    let c' =
      if upper && is_lower c then c - 32 else (if not upper && is_upper c then c + 32 else c) in
    c' ∷ in_canon (c == b'-') cs

-- textproto.CanonicalMIMEHeaderKey
unfoldable pub canonical : Bytes → Bytes
canonical k = if all_tokens k then in_canon true k else k

pub find-append : (k : Bytes) (m n : Pairs) → find k m ≡ none → find k (m ++ n) ≡ find k n
unfolding find
find-append k [] n e = refl
find-append k ((j, v) ∷ m) n e = ground (arith, find-append k m n)

pub find-without_self : (k : Bytes) (m : Pairs) → find k (without k m) ≡ none
unfolding find without
find-without_self k [] = refl
find-without_self k ((j, v) ∷ m) = ground (arith, find-without_self k m)

pub find-without_ne : (k j : Bytes) (m : Pairs) → k ≢ j → find k (without j m) ≡ find k m
unfolding find without
find-without_ne k j [] h = refl
find-without_ne k j ((i, v) ∷ m) h =
    ground (arith, find-without_ne k j m h, bytes_eq_iff i j, bytes_eq_iff i k)

pub find-append_some : (k v : Bytes) (m n : Pairs) → find k m ≡ some v → find k (m ++ n) ≡ some v
unfolding find
find-append_some k v [] n e = cc
find-append_some k v ((j, w) ∷ m) n e = ground (arith, find-append_some k v m n)

find-single : (k v : Bytes) → find k ((k, v) ∷ []) ≡ some v
unfolding find
find-single k v = rw ((bytes_eq_iff k k).1 refl)

find-single_ne : (k j v : Bytes) → k ≢ j → find k ((j, v) ∷ []) ≡ none
unfolding find
find-single_ne k j v h = ground (arith, bytes_eq_iff j k)

pub find-put_self : (k v : Bytes) (m : Pairs) → find k (put k v m) ≡ some v
unfolding put
find-put_self k v m = find-append k (without k m) _ (find-without_self k m) ∙ find-single k v

pub find-put_ne : (k j v : Bytes) (m : Pairs) → k ≢ j → find k (put j v m) ≡ find k m
unfolding put
find-put_ne k j v m h = elim (Option-cases (find k m)) [
  | inl e ↦
      find-append k (without j m) _ (find-without_ne k j m h ∙ e) ∙ find-single_ne k j v h ∙ sym e
  | inr (w, e) ↦ find-append_some k w (without j m) _ (find-without_ne k j m h ∙ e) ∙ sym e
]

-- A pair added behind, as AddCookie does.
pub find-add_self :
    (k v : Bytes) (m : Pairs) → find k m ≡ none → find k (m ++ ((k, v) ∷ [])) ≡ some v
find-add_self k v m e = find-append k m _ e ∙ find-single k v

pub find-add_ne : (k j v : Bytes) (m : Pairs) → k ≢ j → find k (m ++ ((j, v) ∷ [])) ≡ find k m
find-add_ne k j v m h = elim (Option-cases (find k m)) [
  | inl e ↦ find-append k m _ e ∙ find-single_ne k j v h ∙ sym e
  | inr (w, e) ↦ find-append_some k w m _ e ∙ sym e
]
