-- ===== src/Codec/Base64.antt =====
-- base64.RawURLEncoding: three bytes as four letters, no padding.
use sing_xhttp.Common.{
  ℕ, ◌+◌, ◌-◌, ◌*◌, ◌/◌, ◌%◌, ◌<◌, ◌≡◌, refl, ap, ◌∙◌, ◌&&◌, ◌||◌, Option, none, some, List, [],
  ◌∷◌, leb, ltb, ◌==◌, arith, if◌then◌else◌,
}
use sing_xhttp.Common.Text.{Bytes}
use sing_xhttp.Codec.Url.Escape.{AreBytes}

-- The letter of six bits.
unfoldable pub letter : ℕ → ℕ
letter v =
    if ltb v 26
    then b'A' + v
    else (if ltb v 52
        then b'a' + (v - 26)
        else (if ltb v 62 then b'0' + (v - 52) else (if v == 62 then b'-' else b'_')))

unfoldable pub letter_value : ℕ → Option ℕ
letter_value c =
    if leb b'A' c && leb c b'Z'
    then some (c - b'A')
    else (if leb b'a' c && leb c b'z'
        then some (c - b'a' + 26)
        else (if leb b'0' c && leb c b'9'
            then some (c - b'0' + 52)
            else (if c == b'-' then some 62 else (if c == b'_' then some 63 else none))))

-- EncodeToString
unfoldable pub encode_base64 : Bytes → Bytes
encode_base64 [] = []
encode_base64 (a ∷ []) = letter (a / 4) ∷ letter (a % 4 * 16) ∷ []
encode_base64 (a ∷ b ∷ []) =
    letter (a / 4) ∷ letter (a % 4 * 16 + b / 16) ∷ letter (b % 16 * 4) ∷ []
encode_base64 (a ∷ b ∷ c ∷ s) =
    letter (a / 4)
    ∷ letter (a % 4 * 16 + b / 16)
    ∷ letter (b % 16 * 4 + c / 64)
    ∷ letter (c % 64)
    ∷ encode_base64 s

abbrev pub push_value : Option ℕ → Option (List ℕ) → Option (List ℕ)
push_value (some v) (some vs) = some (v ∷ vs)
push_value _ _ = none

-- The values of the letters; line ends are passed over, other bytes are an error.
unfoldable pub letter_values : Bytes → Option (List ℕ)
letter_values [] = some []
letter_values (c ∷ s) =
    let rest = letter_values s in
    if c == 10 || c == 13 then rest else push_value (letter_value c) rest

abbrev pub push_three : ℕ → ℕ → ℕ → Option Bytes → Option Bytes
push_three a b c none = none
push_three a b c (some s) = some (a ∷ b ∷ c ∷ s)

-- Bits left over at the end are dropped; one letter alone is an error.
unfoldable pub join_bits : List ℕ → Option Bytes
join_bits [] = some []
join_bits (v ∷ []) = none
join_bits (v ∷ w ∷ []) = some ((v * 4 + w / 16) ∷ [])
join_bits (v ∷ w ∷ x ∷ []) = some ((v * 4 + w / 16) ∷ (w % 16 * 16 + x / 4) ∷ [])
join_bits (v ∷ w ∷ x ∷ y ∷ vs) =
    push_three (v * 4 + w / 16) (w % 16 * 16 + x / 4) (x % 4 * 64 + y) (join_bits vs)

abbrev pub then_join : Option (List ℕ) → Option Bytes
then_join none = none
then_join (some vs) = join_bits vs

-- DecodeString
unfoldable pub decode_base64 : Bytes → Option Bytes
decode_base64 s = then_join (letter_values s)

letter_values-letter :
    (v : ℕ) (s : Bytes)
    → v < 64
    → letter_values (letter v ∷ s) ≡ push_value (some v) (letter_values s)
unfolding letter_values letter letter_value
letter_values-letter v s h = ground arith

abbrev pub IsWord : ℕ → Type 0
IsWord v = v < 64

-- The values that an encoding stands for.
unfoldable words : Bytes → List ℕ
words [] = []
words (a ∷ []) = a / 4 ∷ a % 4 * 16 ∷ []
words (a ∷ b ∷ []) = a / 4 ∷ (a % 4 * 16 + b / 16) ∷ b % 16 * 4 ∷ []
words (a ∷ b ∷ c ∷ s) = a / 4 ∷ (a % 4 * 16 + b / 16) ∷ (b % 16 * 4 + c / 64) ∷ c % 64 ∷ words s

next_letter :
    (v : ℕ) (s : Bytes) (vs : List ℕ)
    → v < 64
    → letter_values s ≡ some vs
    → letter_values (letter v ∷ s) ≡ some (v ∷ vs)
next_letter v s vs h e = letter_values-letter v s h ∙ ap (push_value (some v)) e

no_letters : letter_values [] ≡ some []
unfolding letter_values
no_letters = refl

letter_values-encode : (s : Bytes) → AreBytes s → letter_values (encode_base64 s) ≡ some (words s)
unfolding encode_base64 words
letter_values-encode [] h = no_letters
letter_values-encode (a ∷ []) (ha, _) =
    next_letter _ _ _ (omega arith) (next_letter _ _ _ (omega arith) no_letters)
letter_values-encode (a ∷ b ∷ []) (ha, (hb, _)) =
    next_letter _ _ _ (omega arith)
      (next_letter _ _ _ (omega arith) (next_letter _ _ _ (omega arith) no_letters))
letter_values-encode (a ∷ b ∷ c ∷ s) (ha, (hb, (hc, h))) = next_letter _ _ _ (omega arith) (
    next_letter _ _ _ (omega arith) (
      next_letter _ _ _ (omega arith) (next_letter _ _ _ (omega arith) (letter_values-encode s h))))

join_bits-words : (s : Bytes) → AreBytes s → join_bits (words s) ≡ some s
unfolding join_bits words
join_bits-words [] h = refl
join_bits-words (a ∷ []) (ha, _) =
    let same : a / 4 * 4 + a % 4 * 16 / 16 ≡ a = omega arith in ap (λ x. some (x ∷ [])) same
join_bits-words (a ∷ b ∷ []) (ha, (hb, _)) =
    let first : a / 4 * 4 + (a % 4 * 16 + b / 16) / 16 ≡ a = omega arith in
    let second : (a % 4 * 16 + b / 16) % 16 * 16 + b % 16 * 4 / 4 ≡ b = omega arith in
    rw (first, second) refl
join_bits-words (a ∷ b ∷ c ∷ s) (ha, (hb, (hc, h))) =
    let first : a / 4 * 4 + (a % 4 * 16 + b / 16) / 16 ≡ a = omega arith in
    let second : (a % 4 * 16 + b / 16) % 16 * 16 + (b % 16 * 4 + c / 64) / 4 ≡ b = omega arith in
    let third : (b % 16 * 4 + c / 64) % 4 * 64 + c % 64 ≡ c = omega arith in
    rw (first, second, third) (ap (push_three a b c) (join_bits-words s h))

-- What is encoded is decoded.
pub decode-encode_base64 : (s : Bytes) → AreBytes s → decode_base64 (encode_base64 s) ≡ some s
unfolding decode_base64
decode-encode_base64 s h = ap then_join (letter_values-encode s h) ∙ join_bits-words s h
