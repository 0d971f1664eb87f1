-- ===== src/Codec/Settings.antt =====
-- What newCodec makes of a configuration.
use sing_xhttp.Common.{
  ℕ, ◌≡◌, refl, ap, ◌∙◌, ◌≢◌, inl, inr, true, false, Option, none, some, [], ◌∷◌, ◌++◌, arith,
  if◌then◌else◌, ◌==◌, Bool-cases, All-append, ==_iff,
}
use sing_xhttp.Common.Int.{pos, ◌≤ℤ◌, ltb_ℤ}
use sing_xhttp.Common.Text.{Bytes, String, str_eq}
use sing_xhttp.Common.Strings.{Lacks, before, ends_with, has_prefix}
use sing_xhttp.Options.{
  Range, Options, or_default, or_mode_default, default_uplink_chunk_size, is_zero, range,
}
use sing_xhttp.Options.Validate.Rules.{IsValid, SoundRange}
use sing_xhttp.Codec.{
  normalize_path, new_codec, at_least_64, chunk_size_of, with_slash, ended_by_slash,
  starts_with_slash, or_text,
}

ends_with-append_one : (p : Bytes) (c : ℕ) → ends_with (p ++ (c ∷ [])) c ≡ true
unfolding ends_with
ends_with-append_one [] c = ground arith
ends_with-append_one (x ∷ []) c = ground arith
ends_with-append_one (x ∷ y ∷ ys) c = ends_with-append_one (y ∷ ys) c

ended : (p : Bytes) → ends_with (ended_by_slash p) b'/' ≡ true
ended p = elim (Bool-cases (ends_with p b'/')) [
  | inl e ↦ rw (e, e)
  | inr e ↦ rw e (ends_with-append_one p b'/')
]

before-Lacks : (c : ℕ) (p : Bytes) → Lacks c (before c p)
unfolding before
before-Lacks c [] = tt
before-Lacks c (x ∷ xs) = elim (Bool-cases (x == c)) [
  | inl e ↦ rw e tt
  | inr f ↦ rw f ((λ e. cc (f, (==_iff x c).1 e)), before-Lacks c xs)
]

before_none : (c : ℕ) (p : Bytes) → Lacks c p → before c p ≡ p
unfolding before
before_none c [] h = refl
before_none c (x ∷ xs) h = ground (arith, before_none c xs h.1)

started : (p : Bytes) → starts_with_slash (with_slash p) ≡ true
started p = elim (Bool-cases (starts_with_slash p)) [ inl e ↦ rw (e, e) | inr e ↦ rw e ]

started-ended :
    (p : Bytes) → starts_with_slash p ≡ true → starts_with_slash (ended_by_slash p) ≡ true
started-ended [] e = cc
started-ended (x ∷ xs) e = elim (Bool-cases (ends_with (x ∷ xs) b'/')) [
  | inl k ↦ rw k e
  | inr k ↦ rw k e
]

prefixed : (p : Bytes) → starts_with_slash p ≡ true → has_prefix p (b'/' ∷ []) ≡ true
unfolding has_prefix
prefixed [] e = cc
prefixed (x ∷ xs) e = rw e

Lacks-with : (p : Bytes) → Lacks b'?' p → Lacks b'?' (with_slash p)
Lacks-with p h = elim (Bool-cases (starts_with_slash p)) [
  | inl e ↦ rw e h
  | inr e ↦ rw e ((λ k. omega arith), h)
]

Lacks-ended : (p : Bytes) → Lacks b'?' p → Lacks b'?' (ended_by_slash p)
Lacks-ended p h = elim (Bool-cases (ends_with p b'/')) [
  | inl e ↦ rw e h
  | inr e ↦ rw e (All-append (λ x. x ≢ b'?') p (b'/' ∷ []) h ((λ k. omega arith), tt))
]

with_slash_same : (p : Bytes) → starts_with_slash p ≡ true → with_slash p ≡ p
with_slash_same p e = rw e

ended_same : (p : Bytes) → ends_with p b'/' ≡ true → ended_by_slash p ≡ p
ended_same p e = rw e

-- A normalized path begins and ends with a slash, holds no query mark, and is its own
-- normalization.
normalize_path_shape :
    (p : Bytes)
    → (has_prefix (normalize_path p) (b'/' ∷ []) ≡ true)
      × (ends_with (normalize_path p) b'/' ≡ true)
      × Lacks b'?' (normalize_path p)
      × (normalize_path (normalize_path p) ≡ normalize_path p)
unfolding normalize_path
normalize_path_shape p =
    let slashed = with_slash (before b'?' p) in
    let start = started-ended slashed (started (before b'?' p)) in
    let end = ended slashed in
    let lacks = Lacks-ended slashed (Lacks-with _ (before-Lacks b'?' p)) in
    (
      prefixed _ start,
      end,
      lacks,
      ap (λ q. ended_by_slash (with_slash q)) (before_none b'?' _ lacks)
          ∙ ap ended_by_slash (with_slash_same _ start)
          ∙ ended_same _ end,
    )

-- The lower bound of 64 keeps the order of a range.
at_least-ordered :
    (r : Range)
    → r.from ≤ℤ r.to
    → (pos 64 ≤ℤ (at_least_64 r).from) × ((at_least_64 r).from ≤ℤ (at_least_64 r).to)
unfolding at_least_64
at_least-ordered r h = elim (Bool-cases (ltb_ℤ r.from (pos 64))) [
  | inl e ↦ elim (Bool-cases (ltb_ℤ r.to (pos 64))) [
    | inl k ↦ rw (e, k) (omega arith, omega arith)
    | inr k ↦ rw (e, k) (omega arith, ground arith)
  ]
  | inr e ↦ rw e (ground arith, h)
]

default-ordered :
    (placement : String) (m : Range)
    → m.from ≤ℤ m.to
    → (default_uplink_chunk_size placement m).from ≤ℤ (default_uplink_chunk_size placement m).to
unfolding default_uplink_chunk_size
default-ordered placement m h = elim (Bool-cases (str_eq placement "cookie")) [
  | inl e ↦ rw e (omega arith)
  | inr e ↦ elim (Bool-cases (str_eq placement "header")) [
    | inl k ↦ rw (e, k) (omega arith)
    | inr k ↦ rw (e, k) h
  ]
]

-- A range that is set, or the default if its upper end is 0.
set-ordered : (r : Range) → SoundRange (some r) → is_zero r.to ≡ false → r.from ≤ℤ r.to
set-ordered r k e = elim k.2 [ inl z ↦ absurd (cc (e, ap is_zero z)) | inr l ↦ l ]

max_each-ordered :
    (o : Option Range) (d : Range)
    → SoundRange o
    → d.from ≤ℤ d.to
    → let r = or_mode_default o d in r.from ≤ℤ r.to
unfolding or_mode_default
max_each-ordered none d k h = h
max_each-ordered (some r) d k h = elim (Bool-cases (is_zero r.to)) [
  | inl e ↦ rw e h
  | inr e ↦ rw e (set-ordered r k e)
]

-- What stands before the lower bound is laid.
chosen-ordered :
    (o : Option Range) (d : Range)
    → SoundRange o
    → d.from ≤ℤ d.to
    → let set = or_default o 0 0 in let r = if is_zero set.to then d else set in r.from ≤ℤ r.to
unfolding or_default
chosen-ordered none d k h = h
chosen-ordered (some r) d k h = elim (Bool-cases (is_zero r.to)) [
  | inl e ↦ rw e h
  | inr e ↦ rw (e, e) (set-ordered r k e)
]

chunk_size-ordered :
    (o : Options) (placement : String) (m : Range)
    → m.from ≤ℤ m.to
    → SoundRange o.uplink_chunk_size
    → (pos 64 ≤ℤ (chunk_size_of o placement m).from)
      × ((chunk_size_of o placement m).from ≤ℤ (chunk_size_of o placement m).to)
unfolding chunk_size_of
chunk_size-ordered o placement m h k = at_least-ordered _ (
    chosen-ordered o.uplink_chunk_size (default_uplink_chunk_size placement m) k
      (default-ordered placement m h))

-- With a validated configuration, the range from which the size of a payload chunk in headers or
-- cookies is drawn is not empty, and both its ends are at least 64.
pub new_codec-chunks :
    (o : Options)
    → IsValid o
    → let r = (new_codec o).uplink_chunk_size in (pos 64 ≤ℤ r.from) × (r.from ≤ℤ r.to)
unfolding new_codec
new_codec-chunks o v =
    chunk_size-ordered o (or_text o.uplink_data_placement "body")
      (or_mode_default o.sc_max_each_post_bytes (range 1_000_000 1_000_000))
      (max_each-ordered o.sc_max_each_post_bytes (range 1_000_000 1_000_000)
        v.sc_max_each_post_bytes (omega arith))
      v.uplink_chunk_size
