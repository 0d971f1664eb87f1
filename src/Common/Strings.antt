-- ===== src/Common/Strings.antt =====
-- What the program uses of Go's strings package, on byte strings; separators are single bytes.
use sing_xhttp.Common.{
  ℕ, ◌≡◌, refl, ◌≢◌, ◌↔◌, ◌⊎◌, Bool, true, false, ◌&&◌, ◌||◌, Option, none, some, List, [], ◌∷◌,
  ◌++◌, length, drop, arith, ◌==◌, if◌then◌else◌, All,
}
use sing_xhttp.Common.Text.{Bytes, String, str_eq, str_eq_iff}

-- Equality of byte strings.
unfoldable pub bytes_eq : Bytes → Bytes → Bool
bytes_eq [] [] = true
bytes_eq (x ∷ xs) (y ∷ ys) = x == y && bytes_eq xs ys
bytes_eq _ _ = false

pub bytes_eq_iff : (s t : Bytes) → (bytes_eq s t ≡ true) ↔ (s ≡ t)
unfolding bytes_eq
bytes_eq_iff [] [] = ((λ _. refl), λ _. refl)
bytes_eq_iff [] (y ∷ ys) = ((λ e. cc), λ e. cc)
bytes_eq_iff (x ∷ xs) [] = ((λ e. cc), λ e. cc)
bytes_eq_iff (x ∷ xs) (y ∷ ys) =
    ((λ e. ground (arith, bytes_eq_iff xs ys)), λ e. ground (arith, bytes_eq_iff xs ys))

-- strings.HasPrefix
unfoldable pub has_prefix : Bytes → Bytes → Bool
has_prefix s [] = true
has_prefix [] (p ∷ ps) = false
has_prefix (x ∷ xs) (p ∷ ps) = x == p && has_prefix xs ps

-- strings.TrimPrefix
unfoldable pub trim_prefix : Bytes → Bytes → Bytes
unfolding has_prefix
trim_prefix s p = if has_prefix s p then drop (length p) s else s

-- strings.HasSuffix for a suffix of one byte.
unfoldable pub ends_with : Bytes → ℕ → Bool
ends_with [] c = false
ends_with (x ∷ []) c = x == c
ends_with (x ∷ y ∷ ys) c = ends_with (y ∷ ys) c

-- All but the last byte.
unfoldable pub front : Bytes → Bytes
front [] = []
front (x ∷ []) = []
front (x ∷ y ∷ ys) = x ∷ front (y ∷ ys)

-- strings.TrimSuffix for a suffix of one byte.
unfoldable pub trim_suffix : Bytes → ℕ → Bytes
unfolding ends_with front
trim_suffix s c = if ends_with s c then front s else s

-- The part of the text before the first `c`, all of it if there is none.
unfoldable pub before : ℕ → Bytes → Bytes
before c [] = []
before c (x ∷ xs) = if x == c then [] else x ∷ before c xs

-- What follows the first `c`, if there is one.
unfoldable pub after : ℕ → Bytes → Option Bytes
after c [] = none
after c (x ∷ xs) = if x == c then some xs else after c xs

-- strings.TrimLeft for a cutset of one byte.
unfoldable pub trim_left : ℕ → Bytes → Bytes
trim_left c [] = []
trim_left c (x ∷ xs) = if x == c then trim_left c xs else x ∷ xs

-- strings.TrimRight for a cutset of one byte.
unfoldable pub trim_right : ℕ → Bytes → Bytes
trim_right c [] = []
trim_right c (x ∷ xs) =
    let rest = trim_right c xs in
    elim rest [ [] ↦ if x == c then [] else x ∷ [] | y ∷ ys ↦ x ∷ y ∷ ys ]

-- A byte in front of the first part.
unfoldable pub into_first : ℕ → List Bytes → List Bytes
into_first x [] = (x ∷ []) ∷ []
into_first x (p ∷ ps) = (x ∷ p) ∷ ps

-- strings.Split
unfoldable pub split : ℕ → Bytes → List Bytes
unfolding into_first
split c [] = [] ∷ []
split c (x ∷ xs) = let rest = split c xs in if x == c then [] ∷ rest else into_first x rest

-- One of the texts of a list.
unfoldable pub one_of : String → List String → Bool
one_of s [] = false
one_of s (t ∷ ts) = str_eq s t || one_of s ts

abbrev pub OneOf : String → List String → Type 0
OneOf s [] = ⊥
OneOf s (t ∷ ts) = (s ≡ t) ⊎ OneOf s ts

pub one_of_iff : (s : String) (ts : List String) → (one_of s ts ≡ true) ↔ OneOf s ts
unfolding one_of
one_of_iff s [] = ((λ e. cc), λ e. absurd e)
one_of_iff s (t ∷ ts) = (
  (λ e. ground (arith, str_eq_iff s t, one_of_iff s ts)),
  λ e. ground (arith, str_eq_iff s t, one_of_iff s ts),
)

module _ (c : ℕ) where
  -- The text holds no `c`.
  abbrev pub Lacks : Bytes → Type 0
  Lacks = All (λ x. x ≢ c)

  pub split-Lacks : (s : Bytes) → Lacks s → split c s ≡ s ∷ []
  unfolding split
  split-Lacks [] h = refl
  split-Lacks (x ∷ xs) h = ground (arith, split-Lacks xs h.1)

  pub split-append : (s t : Bytes) → Lacks s → split c (s ++ (c ∷ t)) ≡ s ∷ split c t
  unfolding split
  split-append [] t h = ground arith
  split-append (x ∷ xs) t h = ground (arith, split-append xs t h.1)

pub has_prefix-append : (p s : Bytes) → has_prefix (p ++ s) p ≡ true
unfolding has_prefix
has_prefix-append [] [] = refl
has_prefix-append [] (x ∷ xs) = refl
has_prefix-append (p ∷ ps) s = ground (arith, has_prefix-append ps s)
