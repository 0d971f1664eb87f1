-- ===== src/Codec/Cookie/Sent.antt =====
-- A cookie whose name is a token and whose value is of visible characters is read as it was written.
use sing_xhttp.Common.{
  ℕ, ◌≡◌, ◌≢◌, ◌≤◌, refl, ap, ◌∙◌, Bool, true, false, not, ◌&&◌, [], ◌∷◌, ◌++◌, arith, leb, ◌==◌,
  All, All-append,
}
use sing_xhttp.Common.Text.{Bytes}
use sing_xhttp.Common.Strings.{split, split-Lacks, Lacks}
use sing_xhttp.Codec.Request.{Pairs, all_tokens, is_token}
use sing_xhttp.Codec.Url.Trip.{after-append, before-append}
use sing_xhttp.Codec.Cookie.{
  all_value_bytes, valid_bytes, wants_quotes, sanitize_value, sanitize_name, is_blank, trim_start,
  trim_end, trim_blanks, unquote, is_name, read_part, read_parts, add_cookie,
}

-- A visible ASCII character that may stand in a cookie unquoted.
abbrev pub IsVisible : ℕ → Type 0
IsVisible c = (33 ≤ c) × (c ≤ 126) × (c ≢ b'"') × (c ≢ b',') × (c ≢ b';') × (c ≢ b'\\')

-- The check by which a concrete text is seen to be visible.
unfoldable pub are_visible : Bytes → Bool
are_visible [] = true
are_visible (c ∷ cs) =
    leb 33 c
    && (leb c 126
        && (not (c == b'"')
            && (not (c == b',') && (not (c == b';') && (not (c == b'\\') && are_visible cs)))))

pub All-IsVisible : (s : Bytes) → are_visible s ≡ true → All IsVisible s
unfolding are_visible
All-IsVisible [] e = tt
All-IsVisible (c ∷ cs) e = (ground arith, All-IsVisible cs (ground arith))

-- A byte that no separator of a Cookie header is.
abbrev IsPlain : ℕ → Type 0
IsPlain c = (c ≢ b';') × (is_blank c ≡ false)

token-no_blank : (c : ℕ) → is_token c ≡ true → is_blank c ≡ false
token-no_blank c t = ground arith

token-IsPlain : (c : ℕ) → is_token c ≡ true → IsPlain c × (c ≢ b'=')
token-IsPlain c t = (
  ((λ e. let off : is_token c ≡ false = ap is_token e in cc), token-no_blank c t),
  λ e. let off : is_token c ≡ false = ap is_token e in cc,
)

tokens-All :
    (s : Bytes) → all_tokens s ≡ true → All IsPlain s × Lacks b'=' s × (sanitize_name s ≡ s)
unfolding all_tokens sanitize_name
tokens-All [] e = (tt, tt, refl)
tokens-All (c ∷ cs) e =
    let (plain, no_equals) = token-IsPlain c (ground arith) in
    let (rest, lacks, same) = tokens-All cs (ground arith) in
    ((plain, rest), (no_equals, lacks), ground (arith, plain.1, same))

visible-IsPlain : (c : ℕ) → IsVisible c → IsPlain c
visible-IsPlain c h = (h.4, ground arith)

visible-All :
    (v : Bytes)
    → All IsVisible v
    → All IsPlain v × (valid_bytes v ≡ v) × (wants_quotes v ≡ false) × (all_value_bytes v ≡ true)
unfolding valid_bytes wants_quotes all_value_bytes
visible-All [] h = (tt, refl, refl, refl)
visible-All (c ∷ cs) h =
    let (plain, kept, bare, valid) = visible-All cs h.1 in
    (
      (visible-IsPlain c h.0, plain),
      ground (arith, h.0, kept),
      ground (arith, h.0, bare),
      ground (arith, h.0, valid),
    )

trim_end-plain : (s : Bytes) → All IsPlain s → trim_end s ≡ s
unfolding trim_end
trim_end-plain [] h = refl
trim_end-plain (c ∷ []) h = rw h.0.1 refl
trim_end-plain (c ∷ d ∷ ds) h = rw (trim_end-plain (d ∷ ds) h.1) refl

trim_start-plain : (s : Bytes) → All IsPlain s → trim_start s ≡ s
unfolding trim_start
trim_start-plain [] h = refl
trim_start-plain (c ∷ cs) h = rw h.0.1 refl

trim-plain : (s : Bytes) → All IsPlain s → trim_blanks s ≡ s
unfolding trim_blanks
trim-plain s h = ap trim_start (trim_end-plain s h) ∙ trim_start-plain s h

Lacks-semicolon : (s : Bytes) → All IsPlain s → Lacks b';' s
Lacks-semicolon [] h = tt
Lacks-semicolon (c ∷ cs) h = (h.0.0, Lacks-semicolon cs h.1)

unquote-visible : (v : Bytes) → All IsVisible v → unquote v ≡ v
unfolding unquote
unquote-visible [] h = refl
unquote-visible (c ∷ cs) h = ground (arith, h.0)

sanitized : (v : Bytes) → All IsVisible v → sanitize_value v ≡ v
unfolding sanitize_value
sanitized v h = let (plain, kept, bare, valid) = visible-All v h in rw (kept, bare) refl

is_name-tokens : (s : Bytes) → is_name s ≡ true → all_tokens s ≡ true
is_name-tokens [] e = cc
is_name-tokens (c ∷ cs) e = e

read_back :
    (name v : Bytes)
    → is_name name ≡ true
    → All IsVisible v
    → read_part (name ++ (b'=' ∷ v)) ≡ (name, v) ∷ []
unfolding read_part
read_back name v e h =
    let (plain_name, no_equals, _) = tokens-All name (is_name-tokens name e) in
    let (plain, _, _, valid) = visible-All v h in
    let whole : trim_blanks (name ++ (b'=' ∷ v)) ≡ name ++ (b'=' ∷ v) =
      trim-plain (name ++ (b'=' ∷ v))
        (All-append IsPlain name (b'=' ∷ v) plain_name (((λ k. omega (arith, k)), refl), plain)) in
    rw
      (
        whole,
        before-append b'=' name v no_equals,
        after-append b'=' name v no_equals,
        trim-plain name plain_name,
        unquote-visible v h,
        e,
        valid,
      )
      refl

-- The pair is added as it is.
pub add_cookie_sent :
    (name v : Bytes) (cookies : Pairs)
    → is_name name ≡ true
    → All IsVisible v
    → add_cookie name v cookies ≡ cookies ++ ((name, v) ∷ [])
unfolding add_cookie read_parts
add_cookie_sent name v cookies e h =
    let (plain_name, no_equals, same) = tokens-All name (is_name-tokens name e) in
    let (plain, _, _, _) = visible-All v h in
    let one : split b';' (name ++ (b'=' ∷ v)) ≡ (name ++ (b'=' ∷ v)) ∷ [] =
      split-Lacks b';' (name ++ (b'=' ∷ v)) (
        Lacks-semicolon (name ++ (b'=' ∷ v)) (
          All-append IsPlain name (b'=' ∷ v) plain_name
            (((λ k. omega (arith, k)), refl), plain))) in
    rw (same, sanitized v h, one, read_back name v e h) refl
