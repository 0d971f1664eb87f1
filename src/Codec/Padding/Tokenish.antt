-- ===== src/Codec/Padding/Tokenish.antt =====
-- The Huffman length that the loop of generateTokenishBase62 reaches.
use sing_xhttp.Common.{
  ℕ, zero, suc, ◌+◌, ◌-◌, ◌*◌, ◌/◌, ◌≤◌, ◌<◌, ◌≡◌, ◌≢◌, refl, ap, sym, subst, ◌⊎◌, inl, inr, [],
  ◌∷◌, ◌++◌, length, leb, ltb, arith, All, Bool-cases, All-append, length-append,
}
use sing_xhttp.Common.Text.{Bytes}
use sing_xhttp.Common.Strings.{front}
use sing_xhttp.Codec.Charset.Drawn.{Among, Drawable}
use sing_xhttp.Codec.Padding.{
  charset_base62, stop, grow, shrink, turn_of, next_adjust, adjust_length, char_count, max_iter,
}

-- The bits of a text's code.
abbrev pub bits_of : (ℕ → ℕ) → Bytes → ℕ
bits_of size [] = 0
bits_of size (c ∷ s) = size c + bits_of size s

-- HPACK's Huffman code as RFC 7541 tabulates it: a text takes whole bytes, the code of a letter or
-- a digit has 5 to 8 bits, and those of X and Z have 8.
pub record HuffmanCode (huffman_len : Bytes → ℕ) : Type 0 where
  pub size : ℕ → ℕ
  pub len : (s : Bytes) → huffman_len s ≡ (bits_of size s + 7) / 8
  pub base62 : (c : ℕ) → Among charset_base62 c → (5 ≤ size c) × (size c ≤ 8)
  pub size_x : size b'X' ≡ 8
  pub size_z : size b'Z' ≡ 8

bits_of-append :
    (size : ℕ → ℕ) (s t : Bytes) → bits_of size (s ++ t) ≡ bits_of size s + bits_of size t
bits_of-append size [] t = omega arith
bits_of-append size (c ∷ s) t = omega (arith, bits_of-append size s t)

module _ (huffman_len : Bytes → ℕ) (code : HuffmanCode huffman_len) where
  abbrev bits : Bytes → ℕ
  bits s = bits_of code.size s

  abbrev Letters : Bytes → Type 0
  Letters = Drawable charset_base62

  bits_bounds : (s : Bytes) → Letters s → (5 * length s ≤ bits s) × (bits s ≤ 8 * length s)
  bits_bounds [] h = (omega arith, omega arith)
  bits_bounds (c ∷ s) h =
      let (low, high) = code.base62 c h.0 in
      let (lows, highs) = bits_bounds s h.1 in (omega arith, omega arith)

  front-Letters : (s : Bytes) → Letters s → Letters (front s)
  unfolding front
  front-Letters [] h = tt
  front-Letters (x ∷ []) h = tt
  front-Letters (x ∷ y ∷ ys) h = (h.0, front-Letters (y ∷ ys) h.1)

  -- The last letter goes.
  bits-front :
      (s : Bytes)
      → Letters s
      → s ≢ []
      → (bits (front s) + 5 ≤ bits s) × (bits s ≤ bits (front s) + 8)
  unfolding front
  bits-front [] h ne = absurd (ne refl)
  bits-front (x ∷ []) h ne = let (low, high) = code.base62 x h.0 in (omega arith, omega arith)
  bits-front (x ∷ y ∷ ys) h ne =
      let (low, high) = bits-front (y ∷ ys) h.1 (λ e. cc) in (omega arith, omega arith)

  -- Within the tolerance.
  abbrev pub Close : ℕ → Bytes → Type 0
  Close target s = (target ≤ huffman_len s + 2) × (huffman_len s ≤ target + 2)

  abbrev IsAdjust : ℕ → Type 0
  IsAdjust a = (a ≡ b'X') ⊎ (a ≡ b'Z')

  next-IsAdjust : (a : ℕ) → IsAdjust a → IsAdjust (next_adjust a)
  next-IsAdjust a (inl e) = inr (rw e refl)
  next-IsAdjust a (inr e) = inl (rw e refl)

  -- One letter more is one byte more.
  huffman-append :
      (s : Bytes) (a : ℕ) → IsAdjust a → huffman_len (s ++ (a ∷ [])) ≡ huffman_len s + 1
  huffman-append s a (inl e) = omega (
    arith,
    code.len s,
    code.len (s ++ (a ∷ [])),
    bits_of-append code.size s (a ∷ []),
    ap code.size e,
    code.size_x,
  )
  huffman-append s a (inr e) = omega (
    arith,
    code.len s,
    code.len (s ++ (a ∷ [])),
    bits_of-append code.size s (a ∷ []),
    ap code.size e,
    code.size_z,
  )

  -- What a turn means for the length.
  turn_of-cases :
      (cur target len : ℕ)
      → (turn_of cur target len ≡ grow) × (cur + 2 < target)
        ⊎ (turn_of cur target len ≡ shrink) × (target + 2 < cur) × (1 < len)
        ⊎ (turn_of cur target len ≡ stop) × (target ≤ cur + 2) × ((cur ≤ target + 2) ⊎ (len ≤ 1))
  unfolding turn_of
  turn_of-cases cur target len = elim (Bool-cases (ltb cur target)) [
    | inl below ↦ elim (Bool-cases (leb (target - cur) 2)) [
      | inl near ↦ inr (inr (rw (below, near) refl, ground arith, inl (ground arith)))
      | inr far ↦ inl (rw (below, far) refl, ground arith)
    ]
    | inr above ↦ elim (Bool-cases (leb (cur - target) 2)) [
      | inl near ↦ inr (inr (rw (above, near) refl, ground arith, inl (ground arith)))
      | inr far ↦ elim (Bool-cases (leb len 1)) [
        | inl short ↦ inr (inr (rw (above, far, short) refl, ground arith, inr (ground arith)))
        | inr long ↦ inr (inl (rw (above, far, long) refl, ground arith, ground arith))
      ]
    ]
  ]

  stops :
      (turns target a : ℕ) (s : Bytes)
      → turn_of (huffman_len s) target (length s) ≡ stop
      → adjust_length huffman_len (suc turns) target a s ≡ s
  unfolding adjust_length
  stops turns target a s e = rw (e, adjust_length) refl

  grows :
      (turns target a : ℕ) (s : Bytes)
      → turn_of (huffman_len s) target (length s) ≡ grow
      → adjust_length huffman_len (suc turns) target a s
        ≡ adjust_length huffman_len turns target (next_adjust a) (s ++ (a ∷ []))
  unfolding adjust_length
  grows turns target a s e = rw (e, adjust_length) refl

  shrinks :
      (turns target a : ℕ) (s : Bytes)
      → turn_of (huffman_len s) target (length s) ≡ shrink
      → adjust_length huffman_len (suc turns) target a s
        ≡ adjust_length huffman_len turns target a (front s)
  unfolding adjust_length
  shrinks turns target a s e = rw (e, adjust_length) refl

  -- From below: every turn adds a byte.
  grown :
      (turns target a : ℕ) (s : Bytes)
      → IsAdjust a
      → huffman_len s ≤ target + 2
      → target ≤ huffman_len s + 2 + turns
      → Close target (adjust_length huffman_len turns target a s)
  unfolding adjust_length
  grown zero target a s h high low = (omega arith, high)
  grown (suc turns) target a s h high low =
      let more = huffman-append s a h in
      elim (turn_of-cases (huffman_len s) target (length s)) [
        | inl (e, below) ↦ subst (Close target) (sym (grows turns target a s e)) (
            grown turns target (next_adjust a) (s ++ (a ∷ [])) (next-IsAdjust a h) (omega arith)
              (omega arith))
        | inr (inl (e, above, _)) ↦ absurd (omega arith)
        | inr (inr (e, near, _)) ↦
            subst (Close target) (sym (stops turns target a s e)) (near, high)
      ]

  -- From above: every turn takes five bits at least, and never passes the target.
  shrunk :
      (turns target a : ℕ) (s : Bytes)
      → Letters s
      → target ≤ huffman_len s + 2
      → bits s ≤ 8 * target + 16 + 5 * turns
      → Close target (adjust_length huffman_len turns target a s)
  unfolding adjust_length
  shrunk zero target a s h low high = (low, omega (arith, code.len s))
  shrunk (suc turns) target a s h low high =
      elim (turn_of-cases (huffman_len s) target (length s)) [
        | inl (e, below) ↦ absurd (omega arith)
        | inr (inl (e, above, long)) ↦
            let (less, close) = bits-front s h (λ k. omega (arith, ap length k)) in
            subst (Close target) (sym (shrinks turns target a s e)) (
              shrunk turns target a (front s) (front-Letters s h)
                (omega (arith, code.len s, code.len (front s))) (omega arith))
        | inr (inr (e, near, inl high)) ↦
            subst (Close target) (sym (stops turns target a s e)) (near, high)
        | inr (inr (e, near, inr short)) ↦
            let (_, most) = bits_bounds s h in
            subst (Close target) (sym (stops turns target a s e)) (near, omega (arith, code.len s))
      ]

  front-All : (P : ℕ → Type 0) (s : Bytes) → All P s → All P (front s)
  unfolding front
  front-All P [] h = tt
  front-All P (x ∷ []) h = tt
  front-All P (x ∷ y ∷ ys) h = (h.0, front-All P (y ∷ ys) h.1)

  length-front : (s : Bytes) → length (front s) ≡ length s - 1
  unfolding front
  length-front [] = refl
  length-front (x ∷ []) = refl
  length-front (x ∷ y ∷ ys) = omega (arith, length-front (y ∷ ys))

  -- The string keeps what its letters have, and at least one of them.
  abbrev pub Kept : (ℕ → Type 0) → Bytes → Type 0
  Kept P s = (0 < length s) × All P s

  pub kept :
      (P : ℕ → Type 0) (turns target a : ℕ) (s : Bytes)
      → P b'X'
      → P b'Z'
      → IsAdjust a
      → Kept P s
      → Kept P (adjust_length huffman_len turns target a s)
  unfolding adjust_length
  kept P zero target a s x z h k = k
  kept P (suc turns) target a s x z h k = elim (turn_of-cases (huffman_len s) target (length s)) [
    | inl (e, _) ↦
        let letter : P a = elim h [ inl i ↦ subst P (sym i) x | inr i ↦ subst P (sym i) z ] in
        subst (Kept P) (sym (grows turns target a s e)) (
          kept P turns target (next_adjust a) (s ++ (a ∷ [])) x z (next-IsAdjust a h)
            (omega (arith, length-append s (a ∷ [])), All-append P s (a ∷ []) k.1 (letter, tt)))
    | inr (inl (e, _, long)) ↦
        subst (Kept P) (sym (shrinks turns target a s e))
          (kept P turns target a (front s) x z h (omega (arith, length-front s), front-All P s k.1))
    | inr (inr (e, _, _)) ↦ subst (Kept P) (sym (stops turns target a s e)) k
  ]

-- Up to 370 the first guess is near enough for the 150 turns.
pub adjusted-Close :
    (huffman_len : Bytes → ℕ) (code : HuffmanCode huffman_len) (target : ℕ) (s : Bytes)
    → Drawable charset_base62 s
    → length s ≡ char_count target
    → target ≤ 370
    → Close huffman_len code target (adjust_length huffman_len max_iter target b'X' s)
unfolding char_count
adjusted-Close huffman_len code target s h size small =
    let (low, high) = bits_bounds huffman_len code s h in
    elim (Bool-cases (ltb (huffman_len s) target)) [
      | inl below ↦
          grown huffman_len code max_iter target b'X' s (inl refl) (ground arith)
            (ground (arith, code.len s, size))
      | inr above ↦
          shrunk huffman_len code max_iter target b'X' s h (ground arith) (ground (arith, size))
    ]
