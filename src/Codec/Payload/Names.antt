-- ===== src/Codec/Payload/Names.antt =====
-- The chunks have different names.
use mathlib.Core.List.{append_cancel_left}
use sing_xhttp.Common.{
  ℕ, ◌≡◌, refl, ap, sym, ◌∙◌, inl, inr, Bool, true, false, [], ◌∷◌, ◌++◌, ◌==◌, arith,
  if◌then◌else◌, Bool-cases,
}
use sing_xhttp.Common.Text.{Bytes, codes}
use sing_xhttp.Common.Decimal.{decimal, AreDigits, decimal-AreDigits, decimal-injective}
use sing_xhttp.Codec.{Codec}
use sing_xhttp.Codec.Request.{all_tokens, in_canon, canonical}
use sing_xhttp.Codec.Payload.{header_name, cookie_name}

digits_tokens : (d : Bytes) → AreDigits d → all_tokens d ≡ true
unfolding all_tokens
digits_tokens [] h = refl
digits_tokens (c ∷ d) h = ground (arith, digits_tokens d h.1, h.0)

all_tokens-append : (k d : Bytes) → AreDigits d → all_tokens (k ++ (b'-' ∷ d)) ≡ all_tokens k
unfolding all_tokens
all_tokens-append [] d h = rw (digits_tokens d h) refl
all_tokens-append (c ∷ k) d h = rw (all_tokens-append k d h) refl

in_canon-digits : (u : Bool) (d : Bytes) → AreDigits d → in_canon u d ≡ d
unfolding in_canon
in_canon-digits u [] h = refl
in_canon-digits true (c ∷ d) h = ground (arith, in_canon-digits (c == b'-') d h.1, h.0)
in_canon-digits false (c ∷ d) h = ground (arith, in_canon-digits (c == b'-') d h.1, h.0)

in_canon-append :
    (u : Bool) (k d : Bytes)
    → AreDigits d
    → in_canon u (k ++ (b'-' ∷ d)) ≡ in_canon u k ++ (b'-' ∷ d)
unfolding in_canon
in_canon-append true [] d h = ap (◌∷◌ b'-') (in_canon-digits true d h)
in_canon-append false [] d h = ap (◌∷◌ b'-') (in_canon-digits true d h)
in_canon-append u (c ∷ k) d h = rw (in_canon-append (c == b'-') k d h) refl

abbrev canonical_key : Bytes → Bytes
canonical_key k = if all_tokens k then in_canon true k else k

canonical-chunk :
    (k d : Bytes) → AreDigits d → canonical (k ++ (b'-' ∷ d)) ≡ canonical_key k ++ (b'-' ∷ d)
unfolding canonical
canonical-chunk k d h = elim (Bool-cases (all_tokens k)) [
  | inl e ↦ rw (all_tokens-append k d h, e) (in_canon-append true k d h)
  | inr e ↦ rw (all_tokens-append k d h, e) refl
]

tail_of : Bytes → Bytes
tail_of [] = []
tail_of (x ∷ s) = s

pub header_name-injective : (c : Codec) (i j : ℕ) → header_name c i ≡ header_name c j → i ≡ j
unfolding header_name tail_of
header_name-injective c i j e =
    let k = codes c.uplink_data_key in
    let same = append_cancel_left (canonical_key k) (b'-' ∷ decimal i) (b'-' ∷ decimal j) (
      sym (canonical-chunk k (decimal i) (decimal-AreDigits i))
      ∙ e
      ∙ canonical-chunk k (decimal j) (decimal-AreDigits j)) in
    decimal-injective i j (ap tail_of same)

pub cookie_name-injective : (c : Codec) (i j : ℕ) → cookie_name c i ≡ cookie_name c j → i ≡ j
unfolding cookie_name tail_of
cookie_name-injective c i j e = decimal-injective i j (
    ap tail_of
      (append_cancel_left (codes c.uplink_data_key) (b'_' ∷ decimal i) (b'_' ∷ decimal j) e))
