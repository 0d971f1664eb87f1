-- ===== src/Options/Validate/ServicePath.antt =====
-- validGRPCServicePath, by splitting and trimming, against the grammar of the rules.
use sing_xhttp.Common.{
  ℕ, ◌≡◌, ◌↔◌, refl, ap, sym, subst, ◌∙◌, inl, inr, Bool, true, false, not, ◌||◌, ◌&&◌, List, [],
  ◌∷◌, ◌==◌, arith, Bool-cases,
}
use sing_xhttp.Common.Text.{Bytes}
use sing_xhttp.Common.Strings.{
  split, into_first, trim_suffix, trim_prefix, ends_with, front, has_prefix,
}
use sing_xhttp.Options.Validate.{
  name_byte, name_bytes, name_parts, is_root, valid_grpc_service_path,
}
use sing_xhttp.Options.Validate.Rules.{IsNameByte, IsNames, IsServicePath}

name_byte_iff : (later : Bool) (c : ℕ) → (name_byte later c ≡ true) ↔ IsNameByte later c
name_byte_iff true c = ((λ e. ground arith), λ h. ground arith)
name_byte_iff false c = ((λ e. ground arith), λ h. ground arith)

abbrev is_nil : Bytes → Bool
is_nil [] = true
is_nil _ = false

-- The parts of a text that goes on inside a name, if `later`.
unfoldable scan : Bool → List Bytes → Bool
scan later [] = false
scan later (p ∷ ps) = (later || not (is_nil p)) && (name_bytes later p && name_parts ps)

split_full : (s : Bytes) → (p : Bytes) × (ps : List Bytes) × (split b'.' s ≡ p ∷ ps)
unfolding split into_first
split_full [] = ([], [], refl)
split_full (x ∷ xs) =
    let (p, ps, e) = split_full xs in
    elim (Bool-cases (x == b'.')) [
      | inl dot ↦ ([], p ∷ ps, rw (dot, e) refl)
      | inr other ↦ (x ∷ p, ps, rw (other, e) refl)
    ]

scan_whole : (p : Bytes) (ps : List Bytes) → scan false (p ∷ ps) ≡ name_parts (p ∷ ps)
unfolding scan name_parts name_bytes
scan_whole [] ps = refl
scan_whole (c ∷ cs) ps = refl

scan-split : (s : Bytes) → scan false (split b'.' s) ≡ name_parts (split b'.' s)
scan-split s = let (p, ps, e) = split_full s in rw e (scan_whole p ps)

scan_dot :
    (later : Bool) (s : Bytes)
    → scan later (split b'.' (b'.' ∷ s)) ≡ (later && scan false (split b'.' s))
unfolding scan split name_bytes
scan_dot true s = sym (scan-split s)
scan_dot false s = refl

scan_byte :
    (later : Bool) (c : ℕ) (s : Bytes)
    → (c == b'.') ≡ false
    → scan later (split b'.' (c ∷ s)) ≡ (name_byte later c && scan true (split b'.' s))
unfolding scan split into_first name_bytes
scan_byte later c s e = let (p, ps, k) = split_full s in rw (e, k) (ground arith)

trim_step : (c d : ℕ) (s : Bytes) → trim_suffix (c ∷ d ∷ s) b'/' ≡ c ∷ trim_suffix (d ∷ s) b'/'
unfolding trim_suffix ends_with front
trim_step c d s = elim (Bool-cases (ends_with (d ∷ s) b'/')) [
  | inl e ↦ rw e refl
  | inr e ↦ rw e refl
]

abbrev Scans : Bool → Bytes → Type 0
Scans later s = scan later (split b'.' (trim_suffix s b'/')) ≡ true

last_iff : (later : Bool) (c : ℕ) → Scans later (c ∷ []) ↔ IsNames later (c ∷ [])
unfolding scan split into_first name_bytes trim_suffix ends_with front name_parts
last_iff true c = ((λ e. ground arith), λ h. ground arith)
last_iff false c = ((λ e. ground arith), λ h. ground arith)

and_iff : (a b : Bool) → ((a && b) ≡ true) ↔ ((a ≡ true) × (b ≡ true))
and_iff true b = ((λ e. (refl, e)), λ h. h.1)
and_iff false b = ((λ e. cc), λ h. h.0)

-- A text that goes on behind its first byte, by whether that is a dot.
step_dot :
    (later : Bool) (c d : ℕ) (s : Bytes)
    → (c == b'.') ≡ true
    → (Scans false (d ∷ s) ↔ IsNames false (d ∷ s))
    → Scans later (c ∷ d ∷ s) ↔ IsNames later (c ∷ d ∷ s)
step_dot later c d s dot ih =
    let is_dot : c ≡ b'.' = ground (arith, dot) in
    let rest = trim_suffix (d ∷ s) b'/' in
    let step : scan later (split b'.' (trim_suffix (c ∷ d ∷ s) b'/'))
        ≡ (later && scan false (split b'.' rest)) =
      ap (λ t. scan later (split b'.' t)) (trim_step c d s ∙ ap (λ x. x ∷ rest) is_dot)
      ∙ scan_dot later rest in
    let both = and_iff later (scan false (split b'.' rest)) in
    (
      (λ e. let (l, r) = both.0 (sym step ∙ e) in inr (inl (l, is_dot, ih.0 r))),
      λ h. step ∙ elim h [
        | inl b ↦
            let named = (name_byte_iff later c).1 b.0 in absurd (ground (arith, named, is_dot))
        | inr (inl n) ↦ both.1 (n.0, ih.1 n.2)
        | inr (inr n) ↦ absurd (omega (arith, n.1, is_dot))
      ],
    )

step_byte :
    (later : Bool) (c d : ℕ) (s : Bytes)
    → (c == b'.') ≡ false
    → (Scans true (d ∷ s) ↔ IsNames true (d ∷ s))
    → Scans later (c ∷ d ∷ s) ↔ IsNames later (c ∷ d ∷ s)
step_byte later c d s other ih =
    let rest = trim_suffix (d ∷ s) b'/' in
    let step : scan later (split b'.' (trim_suffix (c ∷ d ∷ s) b'/'))
        ≡ (name_byte later c && scan true (split b'.' rest)) =
      ap (λ t. scan later (split b'.' t)) (trim_step c d s) ∙ scan_byte later c rest other in
    let both = and_iff (name_byte later c) (scan true (split b'.' rest)) in
    (
      (λ e. let (l, r) = both.0 (sym step ∙ e) in inl ((name_byte_iff later c).0 l, ih.0 r)),
      λ h. step ∙ elim h [
        | inl b ↦ both.1 ((name_byte_iff later c).1 b.0, ih.1 b.1)
        | inr (inl n) ↦ absurd (ground (arith, other, n.1))
        | inr (inr n) ↦ absurd (cc (n.2))
      ],
    )

no_names : Scans false [] → ⊥
unfolding scan split trim_suffix ends_with name_parts name_bytes
no_names e = cc

some_names : Scans true []
unfolding scan split trim_suffix ends_with name_parts name_bytes
some_names = refl

IsNames-iff : (later : Bool) (s : Bytes) → Scans later s ↔ IsNames later s
IsNames-iff true [] = ((λ _. tt), λ _. some_names)
IsNames-iff false [] = ((λ e. no_names e), λ h. absurd h)
IsNames-iff later (c ∷ []) = last_iff later c
IsNames-iff later (c ∷ d ∷ s) = elim (Bool-cases (c == b'.')) [
  | inl dot ↦ step_dot later c d s dot (IsNames-iff false (d ∷ s))
  | inr other ↦ step_byte later c d s other (IsNames-iff true (d ∷ s))
]

-- What the code checks of a path that is not the root.
parts_iff : (s : Bytes) → (name_parts (split b'.' (trim_suffix s b'/')) ≡ true) ↔ IsNames false s
parts_iff s = (
  (λ e. (IsNames-iff false s).0 (scan-split (trim_suffix s b'/') ∙ e)),
  λ h. sym (scan-split (trim_suffix s b'/')) ∙ (IsNames-iff false s).1 h,
)

no_slash_first : (s : Bytes) → IsNames false (b'/' ∷ s) → ⊥
no_slash_first s h = ground (arith, h)

unslashed : (c : ℕ) (s : Bytes) → (c == b'/') ≡ false → trim_prefix (c ∷ s) (b'/' ∷ []) ≡ c ∷ s
unfolding trim_prefix has_prefix
unslashed c s e = rw e refl

slashed : (s : Bytes) → trim_prefix (b'/' ∷ s) (b'/' ∷ []) ≡ s
unfolding trim_prefix has_prefix
slashed [] = refl
slashed (x ∷ s) = refl

first_eq : {c d : ℕ} {s t : Bytes} → c ∷ s ≡ d ∷ t → c ≡ d
first_eq e = cc

rest_eq : {c d : ℕ} {s t : Bytes} → c ∷ s ≡ d ∷ t → s ≡ t
rest_eq e = cc

abbrev PartsOf : Bytes → Type 0
PartsOf p = name_parts (split b'.' (trim_suffix (trim_prefix p (b'/' ∷ [])) b'/')) ≡ true

-- A path that does not start with a slash.
plain_iff : (c : ℕ) (s : Bytes) → (c == b'/') ≡ false → PartsOf (c ∷ s) ↔ IsServicePath (c ∷ s)
plain_iff c s other =
    let same = ap (λ t. name_parts (split b'.' (trim_suffix t b'/'))) (unslashed c s other) in
    (
      (λ e. inr (inr (inl ((parts_iff (c ∷ s)).0 (sym same ∙ e))))),
      λ h. same ∙ elim h [
        | inl e ↦ absurd (cc e)
        | inr (inl e) ↦ let f = first_eq e in absurd (ground (arith, f, other))
        | inr (inr (inl n)) ↦ (parts_iff (c ∷ s)).1 n
        | inr (inr (inr (t, e, n))) ↦ let f = first_eq e in absurd (ground (arith, f, other))
      ],
    )

-- A path that does, and goes on.
slash_iff : (d : ℕ) (s : Bytes) → PartsOf (b'/' ∷ d ∷ s) ↔ IsServicePath (b'/' ∷ d ∷ s)
slash_iff d s =
    let same = ap (λ t. name_parts (split b'.' (trim_suffix t b'/'))) (slashed (d ∷ s)) in
    (
      (λ e. inr (inr (inr (d ∷ s, refl, (parts_iff (d ∷ s)).0 (sym same ∙ e))))),
      λ h. same ∙ elim h [
        | inl e ↦ absurd (cc e)
        | inr (inl e) ↦ let r = rest_eq e in absurd (cc r)
        | inr (inr (inl n)) ↦ absurd (no_slash_first (d ∷ s) n)
        | inr (inr (inr (t, e, n))) ↦
            (parts_iff (d ∷ s)).1 (subst (IsNames false) (sym (rest_eq e)) n)
      ],
    )

not_root :
    (p : Bytes)
    → is_root p ≡ false
    → valid_grpc_service_path p
      ≡ name_parts (split b'.' (trim_suffix (trim_prefix p (b'/' ∷ [])) b'/'))
unfolding valid_grpc_service_path
not_root p e = rw e refl

root_iff : (c : ℕ) → (valid_grpc_service_path (c ∷ []) ≡ true) ↔ IsServicePath (c ∷ [])
unfolding valid_grpc_service_path
root_iff c = elim (Bool-cases (c == b'/')) [
  | inl e ↦ ((λ _. inr (inl (ground (arith, e)))), λ _. rw e refl)
  | inr e ↦
      let same = not_root (c ∷ []) e in
      let plain = plain_iff c [] e in ((λ k. plain.0 (sym same ∙ k)), λ h. same ∙ plain.1 h)
]

-- The code accepts the paths of the grammar and no other.
pub service_iff : (p : Bytes) → (valid_grpc_service_path p ≡ true) ↔ IsServicePath p
unfolding valid_grpc_service_path
service_iff [] = ((λ _. inl refl), λ _. refl)
service_iff (c ∷ []) = root_iff c
service_iff (c ∷ d ∷ s) = elim (Bool-cases (c == b'/')) [
  | inl e ↦
      let is_slash : b'/' ≡ c = ground (arith, e) in
      subst (λ x. PartsOf (x ∷ d ∷ s) ↔ IsServicePath (x ∷ d ∷ s)) is_slash (slash_iff d s)
  | inr e ↦ plain_iff c (d ∷ s) e
]
