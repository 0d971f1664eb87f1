-- ===== src/Options/RangeRand.antt =====
-- xhttp/util.go: rangeRand, in int32 arithmetic.
use native.Mathlib.Nat.{mod-lt}
use sing_xhttp.Common.{
  ℕ, ◌+◌, ◌-◌, ◌%◌, ◌/◌, ◌^◌, ◌≤◌, ◌<◌, ◌≡◌, refl, Option, none, some, arith, ◌==◌, if◌then◌else◌,
  get_or, ◌⊎◌, inl, inr, Bool-cases,
}
use sing_xhttp.Common.Int.{ℤ, pos, pos_part, neg_part, ◌+ℤ◌, ◌-ℤ◌, ◌≤ℤ◌, leb_ℤ, wrap32}
use sing_xhttp.Options.{Range, range}

-- The size of a number.
abbrev pub abs : ℤ → ℕ
abs z = pos_part z + neg_part z

-- rangeRand, with the four random bytes as the number `bits`. `none` is the run-time panic of a
-- remainder by zero. Go's remainder of a non-negative number takes the divisor's size.
unfoldable pub range_rand? : Range → ℕ → Option ℤ
range_rand? r bits =
    let n = bits % 2 ^ 32 / 2 in
    let span = wrap32 (wrap32 (r.to -ℤ r.from) +ℤ pos 1) in
    if leb_ℤ r.to r.from
    then some r.from
    else (if abs span == 0 then none else some (wrap32 (r.from +ℤ pos (n % abs span))))

-- The same where no panic occurs; Validate keeps the ranges away from it.
unfoldable pub range_rand : Range → ℕ → ℤ
unfolding range_rand?
range_rand r bits = get_or (range_rand? r bits) r.from

-- A range that Validate lets through.
abbrev pub IsSound : Range → Type 0
IsSound r =
    (pos 0 ≤ℤ r.from) × (pos 0 ≤ℤ r.to) × (r.from ≤ℤ pos (2 ^ 31 - 1)) × (r.to ≤ℤ pos (2 ^ 31 - 1))

span_size :
    (from to : ℕ)
    → from < to
    → to < 2 ^ 31
    → abs (wrap32 (wrap32 (pos to -ℤ pos from) +ℤ pos 1)) ≡ to - from + 1
span_size from to less hi = ground arith

sum_fits : (a b : ℕ) → a + b < 2 ^ 31 → wrap32 (pos a +ℤ pos b) ≡ pos (a + b)
sum_fits a b h = ground arith

draw :
    (from to bits : ℕ)
    → from < to
    → to < 2 ^ 31
    → range_rand? (range from to) bits ≡ some (pos (from + bits % 2 ^ 32 / 2 % (to - from + 1)))
unfolding range_rand?
draw from to bits less hi =
    let small : bits % 2 ^ 32 / 2 % (to - from + 1) < to - from + 1 =
      mod-lt (bits % 2 ^ 32 / 2) (omega arith) in
    ground (arith, span_size from to less hi, small)

-- From a range of non-negative int32s the draw never panics, and lies between the ends, also where
-- the size of the range overflows int32; from an empty range it is the lower end.
pub range_rand_bounds :
    (from to bits : ℕ)
    → from < 2 ^ 31
    → to < 2 ^ 31
    → (n : ℕ) × (range_rand? (range from to) bits ≡ some (pos n))
      × (from ≤ n)
      × ((n ≤ to) ⊎ (n ≡ from))
unfolding range_rand?
range_rand_bounds from to bits lo hi = elim (Bool-cases (leb_ℤ (pos to) (pos from))) [
  | inl empty ↦ (from, rw empty, ground arith, inr refl)
  | inr more ↦
      let less : from < to = ground arith in
      let n = bits % 2 ^ 32 / 2 in
      let small : n % (to - from + 1) < to - from + 1 = mod-lt n (omega arith) in
      (from + n % (to - from + 1), draw from to bits less hi, omega arith, inl (omega arith))
]
