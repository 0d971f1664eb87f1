-- ===== src/Codec/Url/Escape.antt =====
-- Escaped texts are read back, and hold none of the bytes that a query is cut at.
use sing_xhttp.Common.{
  ℕ, ◌+◌, ◌*◌, ◌/◌, ◌%◌, ◌<◌, ◌≡◌, ◌≢◌, refl, ap, sym, subst, ◌∙◌, ◌⊎◌, inl, inr, Bool, true, false,
  ◌&&◌, ltb, some, [], ◌∷◌, ◌++◌, arith, ◌==◌, if◌then◌else◌, All, All-append, Bool-cases,
}
use sing_xhttp.Common.Text.{Bytes}
use sing_xhttp.Common.Strings.{Lacks}
use sing_xhttp.Codec.Url.{
  plain, percent, half, push_byte, is_unreserved, hex_digit, hex_value, escape_byte, escape,
  unescape_from, unescape,
}

-- Every element is a byte.
abbrev pub AreBytes : Bytes → Type 0
AreBytes = All (λ x. x < 256)

abbrev pub all_bytes : Bytes → Bool
all_bytes [] = true
all_bytes (c ∷ s) = ltb c 256 && all_bytes s

-- For a text that is given.
pub all_bytes-AreBytes : (s : Bytes) → all_bytes s ≡ true → AreBytes s
all_bytes-AreBytes [] h = tt
all_bytes-AreBytes (c ∷ s) h = (ground (arith, h), all_bytes-AreBytes s (ground (arith, h)))

hex_value-hex_digit : (d : ℕ) → d < 16 → hex_value (hex_digit d) ≡ some d
unfolding hex_value hex_digit
hex_value-hex_digit d h = ground arith

byte_halves : (c : ℕ) → c < 256 → (c / 16 < 16) × (c % 16 < 16) × (c / 16 * 16 + c % 16 ≡ c)
byte_halves c h = (omega arith, omega arith, omega arith)

-- The shape of an escaped byte.
escape_byte-cases :
    (c : ℕ)
    → (is_unreserved c ≡ true) × (escape_byte c ≡ c ∷ [])
      ⊎ (c ≡ b' ') × (escape_byte c ≡ b'+' ∷ [])
      ⊎ (escape_byte c ≡ b'%' ∷ hex_digit (c / 16) ∷ hex_digit (c % 16) ∷ [])
unfolding escape_byte
escape_byte-cases c = elim (Bool-cases (is_unreserved c)) [
  | inl e ↦ inl (e, rw e refl)
  | inr e ↦ elim (Bool-cases (c == b' ')) [
    | inl space ↦ inr (inl (ground arith, rw (e, space) refl))
    | inr other ↦ inr (inr (rw (e, other) refl))
  ]
]

plain_byte :
    (c : ℕ) (s : Bytes)
    → (c == b'%') ≡ false
    → unescape_from plain (c ∷ s)
      ≡ push_byte (if c == b'+' then b' ' else c) (unescape_from plain s)
unfolding unescape_from
plain_byte c s e = rw (e, unescape_from) refl

unreserved_plain : (c : ℕ) → is_unreserved c ≡ true → ((c == b'%') ≡ false) × ((c == b'+') ≡ false)
unfolding is_unreserved
unreserved_plain c h = (ground arith, ground arith)

first_digit :
    (c h : ℕ) (s : Bytes)
    → hex_value c ≡ some h
    → unescape_from percent (c ∷ s) ≡ unescape_from (half h) s
unfolding unescape_from
first_digit c h s e = rw (e, unescape_from) refl

second_digit :
    (h c l : ℕ) (s : Bytes)
    → hex_value c ≡ some l
    → unescape_from (half h) (c ∷ s) ≡ push_byte (h * 16 + l) (unescape_from plain s)
unfolding unescape_from
second_digit h c l s e = rw (e, unescape_from) refl

percent_byte :
    (h l : ℕ) (s : Bytes)
    → h < 16
    → l < 16
    → unescape_from plain (b'%' ∷ hex_digit h ∷ hex_digit l ∷ s)
      ≡ push_byte (h * 16 + l) (unescape_from plain s)
unfolding unescape_from
percent_byte h l s lo hi =
    first_digit (hex_digit h) h (hex_digit l ∷ s) (hex_value-hex_digit h lo)
    ∙ second_digit h (hex_digit l) l s (hex_value-hex_digit l hi)

unescape-escape_byte :
    (c : ℕ) (s : Bytes)
    → c < 256
    → unescape_from plain (escape_byte c ++ s) ≡ push_byte c (unescape_from plain s)
unescape-escape_byte c s h = elim (escape_byte-cases c) [
  | inl (free, e) ↦
      let (p, q) = unreserved_plain c free in
      rw e
        (plain_byte c s p ∙ ap (λ b. push_byte (if b then b' ' else c) (unescape_from plain s)) q)
  | inr (inl (e, k)) ↦ rw (k, e) (plain_byte b'+' s refl)
  | inr (inr e) ↦
      let (hi, lo, sum) = byte_halves c h in
      rw e
        (percent_byte (c / 16) (c % 16) s hi lo ∙ ap (λ n. push_byte n (unescape_from plain s)) sum)
]

-- What is escaped is read back.
unescape_from-escape : (s : Bytes) → AreBytes s → unescape_from plain (escape s) ≡ some s
unfolding escape unescape_from
unescape_from-escape [] h = refl
unescape_from-escape (c ∷ s) h =
    unescape-escape_byte c (escape s) h.0 ∙ ap (push_byte c) (unescape_from-escape s h.1)

pub unescape-escape : (s : Bytes) → AreBytes s → unescape (escape s) ≡ some s
unfolding unescape
unescape-escape s h = unescape_from-escape s h

-- A byte that escaped texts do not hold.
abbrev pub IsReserved : ℕ → Type 0
IsReserved x = (is_unreserved x ≡ false) × (x ≢ b'+') × (x ≢ b'%')

hex_digit-unreserved : (d : ℕ) → d < 16 → is_unreserved (hex_digit d) ≡ true
unfolding hex_digit is_unreserved
hex_digit-unreserved d h = ground arith

true_ne_false : true ≢ false
true_ne_false e = cc

differs : (x c : ℕ) → is_unreserved x ≡ false → is_unreserved c ≡ true → c ≢ x
differs x c e h same = true_ne_false (sym h ∙ ap is_unreserved same ∙ e)

escape_byte-Lacks : (x c : ℕ) → IsReserved x → c < 256 → Lacks x (escape_byte c)
escape_byte-Lacks x c (e, p, q) h = elim (escape_byte-cases c) [
  | inl (free, k) ↦ subst (Lacks x) (sym k) (differs x c e free, tt)
  | inr (inl (_, k)) ↦ subst (Lacks x) (sym k) ((λ n. p (sym n)), tt)
  | inr (inr k) ↦
      let (hi, lo, _) = byte_halves c h in
      subst (Lacks x) (sym k) (
        (λ n. q (sym n)),
        (
          differs x (hex_digit (c / 16)) e (hex_digit-unreserved (c / 16) hi),
          (differs x (hex_digit (c % 16)) e (hex_digit-unreserved (c % 16) lo), tt),
        ),
      )
]

pub escape-Lacks : (x : ℕ) (s : Bytes) → IsReserved x → AreBytes s → Lacks x (escape s)
unfolding escape
escape-Lacks x [] r h = tt
escape-Lacks x (c ∷ s) r h =
    All-append (λ y. y ≢ x) (escape_byte c) (escape s) (escape_byte-Lacks x c r h.0)
      (escape-Lacks x s r h.1)
