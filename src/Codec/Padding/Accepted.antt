-- ===== src/Codec/Padding/Accepted.antt =====
-- Padding that the client generates passes the server's length check.
use sing_xhttp.Common.{
  ℕ, zero, suc, ◌+◌, ◌-◌, ◌^◌, ◌≤◌, ◌<◌, ◌≡◌, refl, ap, ◌∙◌, inl, inr, Bool, true, false, Option,
  some, List, length, replicate, ltb, arith, Bool-cases, length-replicate,
}
use sing_xhttp.Common.Int.{pos, ◌+ℤ◌, ◌-ℤ◌, is_negative, is_positive, wrap32}
use sing_xhttp.Common.Text.{Bytes, str_eq}
use sing_xhttp.Common.Strings.{OneOf}
use sing_xhttp.Options.{range}
use sing_xhttp.Options.RangeRand.{range_rand, range_rand_bounds}
use sing_xhttp.Codec.{Codec}
use sing_xhttp.Codec.Request.{Request}
use sing_xhttp.Codec.Charset.{drawn}
use sing_xhttp.Codec.Url.{is_empty}
use sing_xhttp.Codec.Url.Escape.{AreBytes}
use sing_xhttp.Codec.Padding.{
  place_padding, extract_padding, validate_padding, generate_padding, apply_padding, method_of,
}
use sing_xhttp.Codec.Padding.Trip.{Unpadded, padding_places, extract-place}

replicate-AreBytes : (n c : ℕ) → c < 256 → AreBytes (replicate n c)
replicate-AreBytes zero c h = tt
replicate-AreBytes (suc n) c h = (h, replicate-AreBytes n c h)

module _ (huffman_len : Bytes → ℕ) (c : Codec) (from to : ℕ) (sized : c.xpad_range ≡ range from to)
    (lo : from < 2 ^ 31) (hi : to < 2 ^ 31) where
  -- The length that is drawn.
  pub drawn_size :
      (bits : ℕ)
      → from ≤ to
      → (n : ℕ) × (range_rand c.xpad_range bits ≡ pos n) × (from ≤ n) × (n ≤ to)
  unfolding range_rand
  drawn_size bits le =
      let (n, is_n, low, high) = range_rand_bounds from to bits lo hi in
      (n, rw (sized, is_n) refl, low, elim high [ inl h ↦ h | inr h ↦ omega arith ])

  -- A text of an allowed length, where lengths are counted.
  counted :
      (v : Bytes)
      → is_empty v ≡ false
      → str_eq (method_of c) "tokenish" ≡ false
      → from ≤ length v
      → length v ≤ to
      → validate_padding huffman_len c v ≡ true
  unfolding validate_padding
  counted v full method low high =
      let fits : wrap32 (pos (length v)) ≡ pos (length v) = ground arith in
      rw (full, method, fits) (ground (arith, sized))

  -- A text near an allowed length, where Huffman lengths are compared.
  pub near :
      (v : Bytes) (n : ℕ)
      → is_empty v ≡ false
      → str_eq (method_of c) "tokenish" ≡ true
      → 0 < to
      → to + 2 < 2 ^ 31
      → from ≤ n
      → n ≤ to
      → n ≤ huffman_len v + 2
      → huffman_len v ≤ n + 2
      → validate_padding huffman_len c v ≡ true
  unfolding validate_padding
  near v n full method some_to small low high above below =
      let fits : wrap32 (pos (huffman_len v)) ≡ pos (huffman_len v) = ground arith in
      let upper : wrap32 (pos to +ℤ pos 2) ≡ pos (to + 2) = ground arith in
      elim (Bool-cases (ltb from 2)) [
        | inl small_from ↦
            let lower : is_negative (wrap32 (pos from -ℤ pos 2)) ≡ true = ground arith in
            rw (full, method, fits, sized, upper, lower) (ground arith)
        | inr large_from ↦
            let lower : wrap32 (pos from -ℤ pos 2) ≡ pos (from - 2) = ground arith in
            rw (full, method, fits, sized, upper, lower) (ground arith)
      ]

  generated_x :
      (n : ℕ) (reads : List (Option Bytes))
      → 0 < n
      → str_eq (method_of c) "tokenish" ≡ false
      → generate_padding huffman_len (method_of c) n reads ≡ drawn (replicate n b'X')
  unfolding generate_padding
  generated_x zero reads h method = absurd (omega arith)
  generated_x (suc n) reads h method = rw method refl

  -- A draw that ends with a text places it.
  pub applied :
      (bits n : ℕ) (reads : List (Option Bytes)) (url_front : Bytes) (r : Request) (v : Bytes)
      → range_rand c.xpad_range bits ≡ pos n
      → 0 < n
      → generate_padding huffman_len (method_of c) n reads ≡ drawn v
      → apply_padding huffman_len c bits reads url_front r ≡ some (place_padding c url_front r v)
  unfolding apply_padding
  applied bits n reads url_front r v is_n h e =
      let go : is_positive (pos n) ≡ true = ground arith in rw (is_n, go, e) refl

replicate-full : (n c : ℕ) → 0 < n → is_empty (replicate n c) ≡ false
replicate-full zero c h = absurd (omega arith)
replicate-full (suc n) c h = refl

-- What the client makes of a request: a text of Xs in its place, which the server accepts.
pub repeat_x_sent :
    (huffman_len : Bytes → ℕ) (parses : Bytes → Bool) (c : Codec) (from to bits : ℕ)
    (reads : List (Option Bytes)) (url_front : Bytes) (r : Request)
    → c.xpad_range ≡ range from to
    → 0 < from
    → from ≤ to
    → to < 2 ^ 31
    → str_eq (method_of c) "tokenish" ≡ false
    → (c.xpad_obfs ≡ true → OneOf c.xpad_placement padding_places)
    → Unpadded parses c url_front r
    → (n : ℕ) × (apply_padding huffman_len c bits reads url_front r
        ≡ some (place_padding c url_front r (replicate n b'X')))
      × (validate_padding huffman_len c
            (extract_padding parses c (place_padding c url_front r (replicate n b'X')))
          ≡ true)
repeat_x_sent huffman_len parses c from to bits reads url_front r sized lo le hi method place
      fresh =
    let low : from < 2 ^ 31 = omega arith in
    let (n, is_n, at_least, at_most) = drawn_size huffman_len c from to sized low hi bits le in
    let v : Bytes = replicate n b'X' in
    let some_n : 0 < n = omega arith in
    let full = replicate-full n b'X' some_n in
    let found =
      extract-place parses c url_front r v fresh (replicate-AreBytes n b'X' (omega arith)) full
        place in
    let size : length v ≡ n = length-replicate n b'X' in
    (
      n,
      applied huffman_len c from to sized low hi bits n reads url_front r v is_n some_n
          (generated_x huffman_len c from to sized low hi n reads some_n method),
      ap (validate_padding huffman_len c) found
          ∙ counted huffman_len c from to sized low hi v full method (omega (arith, size))
              (omega (arith, size)),
    )
