-- ===== src/Common/Decimal.antt =====
-- Decimal numerals: strconv's printing of a number that is not negative, and ParseUint.
use sing_xhttp.Common.{
  ℕ, zero, suc, ◌+◌, ◌-◌, ◌*◌, ◌/◌, ◌%◌, ◌^◌, ◌≤◌, ◌<◌, ◌≡◌, ◌≢◌, refl, ap, sym, ◌∙◌, inl, inr,
  Bool, true, false, ◌&&◌, Option, none, some, [], ◌∷◌, ◌++◌, leb, ltb, arith, if◌then◌else◌, All,
  All-append, Bool-cases, length, length-append,
}
use sing_xhttp.Common.Text.{Bytes}

-- The digits of a number; each turn leaves a tenth of it.
unfoldable pub digits : ℕ → ℕ → Bytes
digits zero n = []
digits (suc fuel) n = elim (ltb n 10) [
  | true ↦ (b'0' + n) ∷ []
  | false ↦ digits fuel (n / 10) ++ ((b'0' + n % 10) ∷ [])
]

-- strconv.FormatUint in base 10; a number has fewer digits than its value.
unfoldable pub decimal : ℕ → Bytes
decimal n = digits (suc n) n

abbrev is_digit : ℕ → Bool
is_digit c = leb b'0' c && leb c b'9'

-- The value of a run of digits behind one that has been read.
unfoldable pub value_from : ℕ → Bytes → Option ℕ
value_from acc [] = some acc
value_from acc (c ∷ s) =
    let rest = value_from (10 * acc + (c - b'0')) s in if is_digit c then rest else none

abbrev pub below_2_64 : Option ℕ → Option ℕ
below_2_64 none = none
below_2_64 (some n) = if ltb n (2 ^ 64) then some n else none

-- strconv.ParseUint in base 10 with 64 bits.
unfoldable pub parse_uint : Bytes → Option ℕ
parse_uint [] = none
parse_uint (c ∷ s) = below_2_64 (value_from 0 (c ∷ s))

abbrev pub AreDigits : Bytes → Type 0
AreDigits = All (λ c. (b'0' ≤ c) × (c ≤ b'9'))

abbrev shift : Option ℕ → ℕ → Option ℕ
shift none d = none
shift (some v) d = some (10 * v + d)

value_from-append :
    (acc d : ℕ) (s : Bytes)
    → d < 10
    → value_from acc (s ++ ((b'0' + d) ∷ [])) ≡ shift (value_from acc s) d
unfolding value_from
value_from-append acc d [] h = ground arith
value_from-append acc d (c ∷ s) h = elim (Bool-cases (is_digit c)) [
  | inl e ↦ rw e (value_from-append (10 * acc + (c - b'0')) d s h)
  | inr e ↦ rw e refl
]

value_from-digits : (fuel n : ℕ) → n < fuel → value_from 0 (digits fuel n) ≡ some n
unfolding digits value_from
value_from-digits zero n h = absurd (omega arith)
value_from-digits (suc fuel) n h = elim (Bool-cases (ltb n 10)) [
  | inl e ↦ rw (e, digits) (ground arith)
  | inr e ↦
      let smaller : n / 10 < fuel = ground arith in
      let sum : 10 * (n / 10) + n % 10 ≡ n = omega arith in
      rw (e, digits)
        (value_from-append 0 (n % 10) (digits fuel (n / 10)) (omega arith)
          ∙ ap (λ v. shift v (n % 10)) (value_from-digits fuel (n / 10) smaller)
          ∙ ap some sum)
]

digits-AreDigits : (fuel n : ℕ) → AreDigits (digits fuel n)
unfolding digits
digits-AreDigits zero n = tt
digits-AreDigits (suc fuel) n = elim (Bool-cases (ltb n 10)) [
  | inl e ↦ rw (e, digits) ((omega arith, ground arith), tt)
  | inr e ↦
      rw (e, digits)
        (All-append (λ c. (b'0' ≤ c) × (c ≤ b'9')) (digits fuel (n / 10)) ((b'0' + n % 10) ∷ [])
          (digits-AreDigits fuel (n / 10)) ((omega arith, omega arith), tt))
]

pub decimal-AreDigits : (n : ℕ) → AreDigits (decimal n)
unfolding decimal
decimal-AreDigits n = digits-AreDigits (suc n) n

value-decimal : (n : ℕ) → value_from 0 (decimal n) ≡ some n
unfolding decimal
value-decimal n = value_from-digits (suc n) n (omega arith)

pub decimal-injective : (m n : ℕ) → decimal m ≡ decimal n → m ≡ n
decimal-injective m n e =
    let same : some m ≡ some n = sym (value-decimal m) ∙ ap (value_from 0) e ∙ value-decimal n in cc

parse_some :
    (s : Bytes) (n : ℕ) → s ≢ [] → n < 2 ^ 64 → value_from 0 s ≡ some n → parse_uint s ≡ some n
unfolding parse_uint
parse_some [] n h b e = absurd (h refl)
parse_some (c ∷ s) n h b e = rw e (ground arith)

length-digits : (fuel n : ℕ) → 0 < length (digits (suc fuel) n)
unfolding digits
length-digits fuel n = elim (Bool-cases (ltb n 10)) [
  | inl e ↦ rw (e, length) (omega arith)
  | inr e ↦
      rw (e, length) (omega (arith, length-append (digits fuel (n / 10)) ((b'0' + n % 10) ∷ [])))
]

pub decimal_full : (n : ℕ) → decimal n ≢ []
unfolding decimal
decimal_full n e = omega (arith, length-digits n n, ap length e)

-- A printed number is read back.
pub parse-decimal : (n : ℕ) → n < 2 ^ 64 → parse_uint (decimal n) ≡ some n
parse-decimal n h = parse_some (decimal n) n (decimal_full n) h (value-decimal n)
