-- ===== src/Codec/Charset/Drawn.antt =====
-- What randStringFromCharset and generateSessionID give, and when they go on for ever.
use native.Mathlib.Nat.{mod-lt, mod-eq_of_lt}
use sing_xhttp.Common.{
  ℕ, zero, suc, ◌-◌, ◌%◌, ◌+◌, ◌≤◌, ◌<◌, ◌≡◌, refl, ap, sym, subst, ◌∙◌, true, false, ◌⊎◌, inl, inr,
  Option, some, get_or, List, [], ◌∷◌, ◌++◌, length, get_elem?, ltb, arith, All, Bool-cases, map,
  length-append, All-append, min,
}
use sing_xhttp.Common.Int.{pos}
use sing_xhttp.Common.Text.{Bytes}
use sing_xhttp.Codec.Charset.{
  Draw, drawn, unfinished, limit, is_biased, char_at, pick_chars, in_front, fill_chars, rand_string,
}

-- A byte that occurs in the text.
abbrev pub Among : Bytes → ℕ → Type 0
Among [] c = ⊥
Among (x ∷ xs) c = (c ≡ x) ⊎ Among xs c

get-Among : (xs : Bytes) (i : ℕ) → i < length xs → Among xs (get_or (get_elem? xs i) 0)
get-Among [] i h = absurd (omega arith)
get-Among (x ∷ xs) zero h = inl refl
get-Among (x ∷ xs) (suc i) h = inr (get-Among xs i (omega arith))

-- How many bytes of a buffer lie below the limit.
unfoldable pub accepted : Bytes → Bytes → ℕ
accepted charset [] = 0
accepted charset (b ∷ buf) = elim (is_biased charset b) [
  | true ↦ accepted charset buf
  | false ↦ suc (accepted charset buf)
]

module _ (charset : Bytes) where
  length-pick_chars :
      (left : ℕ) (buf : Bytes)
      → length (pick_chars charset left buf) ≡ min left (accepted charset buf)
  unfolding pick_chars accepted
  length-pick_chars zero buf = omega arith
  length-pick_chars (suc left) [] = omega arith
  length-pick_chars (suc left) (b ∷ buf) = elim (Bool-cases (is_biased charset b)) [
    | inl e ↦ rw (e, length, accepted) (length-pick_chars (suc left) buf)
    | inr e ↦ rw (e, length, accepted) (omega (arith, length-pick_chars left buf))
  ]

  pick_biased :
      (left b : ℕ) (buf : Bytes)
      → is_biased charset b ≡ true
      → pick_chars charset (suc left) (b ∷ buf) ≡ pick_chars charset (suc left) buf
  unfolding pick_chars
  pick_biased left b buf e = rw (e, pick_chars)

  pick_fair :
      (left b : ℕ) (buf : Bytes)
      → is_biased charset b ≡ false
      → pick_chars charset (suc left) (b ∷ buf) ≡ char_at charset b ∷ pick_chars charset left buf
  unfolding pick_chars
  pick_fair left b buf e = rw (e, pick_chars)

  abbrev pub Drawable : Bytes → Type 0
  Drawable = All (Among charset)

  pick_chars-Among :
      0 < length charset → (left : ℕ) (buf : Bytes) → Drawable (pick_chars charset left buf)
  unfolding pick_chars
  pick_chars-Among h zero buf = tt
  pick_chars-Among h (suc left) [] = tt
  pick_chars-Among h (suc left) (b ∷ buf) = elim (Bool-cases (is_biased charset b)) [
    | inl e ↦ subst Drawable (sym (pick_biased left b buf e)) (pick_chars-Among h (suc left) buf)
    | inr e ↦
        subst Drawable (sym (pick_fair left b buf e))
          (get-Among charset (b % length charset) (mod-lt b h), pick_chars-Among h left buf)
  ]

  -- What a call that ends may give.
  abbrev pub Filled : ℕ → Draw → Type 0
  Filled left d = (s : Bytes) × (d ≡ drawn s) × (length s ≡ left) × Drawable s

  abbrev pub enough : List Bytes → ℕ
  enough [] = 0
  enough (buf ∷ bufs) = accepted charset buf + enough bufs

  in_front-Filled :
      (got : Bytes) (left : ℕ) (d : Draw)
      → Drawable got
      → length got ≤ left
      → Filled (left - length got) d
      → Filled left (in_front got d)
  in_front-Filled got left d h le (s, e, n, k) = (
    got ++ s,
    ap (in_front got) e,
    length-append got s ∙ omega (arith, n),
    All-append (Among charset) got s h k,
  )

  fill_chars-Filled :
      0 < length charset
      → (left : ℕ) (bufs : List Bytes) → left ≤ enough bufs
      → Filled left (fill_chars charset left (map some bufs))
  unfolding fill_chars
  fill_chars-Filled h zero bufs le = ([], refl, refl, tt)
  fill_chars-Filled h (suc left) [] le = absurd (omega arith)
  fill_chars-Filled h (suc left) (buf ∷ bufs) le =
      let got = pick_chars charset (suc left) buf in
      in_front-Filled got (suc left) _ (pick_chars-Among h (suc left) buf)
        (omega (arith, length-pick_chars (suc left) buf))
        (fill_chars-Filled h (suc left - length got) bufs
          (omega (arith, length-pick_chars (suc left) buf)))

  -- Nothing lies below a limit of 0.
  nothing_picked :
      limit (length charset) ≡ 0 → (left : ℕ) (buf : Bytes) → pick_chars charset left buf ≡ []
  unfolding pick_chars is_biased
  nothing_picked e zero buf = refl
  nothing_picked e (suc left) [] = refl
  nothing_picked e (suc left) (b ∷ buf) =
      pick_biased left b buf (ground (arith, e)) ∙ nothing_picked e (suc left) buf

  fill_chars-stuck :
      limit (length charset) ≡ 0
      → (left : ℕ) (bufs : List Bytes)
      → fill_chars charset (suc left) (map some bufs) ≡ unfinished []
  unfolding fill_chars
  fill_chars-stuck e left [] = refl
  fill_chars-stuck e left (buf ∷ bufs) =
      let whole : suc left - 0 ≡ suc left = omega arith in
      rw (nothing_picked e (suc left) buf, whole) (ap (in_front []) (fill_chars-stuck e left bufs))

limit-zero : (m : ℕ) → (256 % m ≡ 0) ⊎ (256 < m) → limit m ≡ 0
unfolding limit
limit-zero m (inl e) = ground arith
limit-zero m (inr h) = let same : 256 % m ≡ 256 = mod-eq_of_lt h in ground arith

rand_string-starts :
    (n c : ℕ) (cs : Bytes) (reads : List (Option Bytes))
    → 0 < n
    → rand_string (pos n) (c ∷ cs) reads ≡ fill_chars (c ∷ cs) n reads
unfolding rand_string
rand_string-starts n c cs reads lo = let go : ltb 0 (n + 0) ≡ true = ground arith in rw go refl

-- When the buffers that the generator gives hold at least `n` bytes below the limit, the call ends
-- with a string of `n` characters, each of them a character of the set.
pub rand_string-Filled :
    (n c : ℕ) (cs : Bytes) (bufs : List Bytes)
    → 0 < n
    → n ≤ enough (c ∷ cs) bufs
    → Filled (c ∷ cs) n (rand_string (pos n) (c ∷ cs) (map some bufs))
rand_string-Filled n c cs bufs lo h =
    subst (Filled (c ∷ cs) n) (sym (rand_string-starts n c cs (map some bufs) lo))
      (fill_chars-Filled (c ∷ cs) (omega arith) n bufs h)

-- For a set whose size divides 256, such as 16, or exceeds it, so that the limit is 256 cut to a
-- byte: the call never ends. Whatever buffers the generator gives, it has no character and asks for
-- more.
pub rand_string-unfinished :
    (n c : ℕ) (cs : Bytes) (bufs : List Bytes)
    → 0 < n
    → (256 % length (c ∷ cs) ≡ 0) ⊎ (256 < length (c ∷ cs))
    → rand_string (pos n) (c ∷ cs) (map some bufs) ≡ unfinished []
rand_string-unfinished (suc n) c cs bufs lo h =
    rand_string-starts (suc n) c cs (map some bufs) lo
    ∙ fill_chars-stuck (c ∷ cs) (limit-zero (length (c ∷ cs)) h) n bufs
rand_string-unfinished zero c cs bufs lo h = absurd (omega arith)
