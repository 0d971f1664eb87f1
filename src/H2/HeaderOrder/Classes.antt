-- ===== src/H2/HeaderOrder/Classes.antt =====
-- The passes of chromiumHeaderOrder sort the fields by class and keep the order within a class.
use mathlib.Core.List.{Perm}
use mathlib.Core.List.Perm
use sing_xhttp.Common.{
  ℕ, ◌≡◌, refl, Bool, true, false, ◌&&◌, ◌||◌, not, List, [], ◌∷◌, ◌++◌, ◌==◌, if◌then◌else◌, arith,
  ap, ◌∙◌, sym, Bool-cases, inl, inr, ◌⊎◌, subst,
}
use sing_xhttp.Common.Text.{codes, String}
use sing_xhttp.Common.Strings.{bytes_eq}
use sing_xhttp.H2.HeaderOrder.{
  HeaderField, Marked, sweep, sweep_names, unmarked, is_pseudo, chromium_order,
  chromium_header_order,
}

-- The fields that pass a test, in their order.
abbrev pub filter : (HeaderField → Bool) → List HeaderField → List HeaderField
filter test [] = []
filter test (f ∷ fs) = let rest = filter test fs in if test f then f ∷ rest else rest

abbrev named : String → HeaderField → Bool
named n f = bytes_eq f.name (codes n)

-- The class of a field: one for each name of the order, other pseudo fields, regular fields.
abbrev rank : (method authority scheme path pseudo : Bool) → ℕ
rank method authority scheme path pseudo =
    if method
    then 0
    else (if authority
        then 1
        else (if scheme then 2 else (if path then 3 else (if pseudo then 4 else 5))))

abbrev pub class_of : HeaderField → ℕ
class_of f =
    rank (named ":method" f) (named ":authority" f) (named ":scheme" f) (named ":path" f)
      (is_pseudo f)

abbrev of_class : ℕ → List HeaderField → List HeaderField
of_class k = filter (λ f. class_of f == k)

-- The fields class by class.
abbrev pub by_class : List HeaderField → List HeaderField
by_class fs =
    of_class 0 fs
    ++ (of_class 1 fs ++ (of_class 2 fs ++ (of_class 3 fs ++ (of_class 4 fs ++ of_class 5 fs))))

abbrev marked : (HeaderField → Bool) → List HeaderField → List Marked
marked used [] = []
marked used (f ∷ fs) = (f, used f) ∷ marked used fs

abbrev Taken : Type 0
Taken = List HeaderField × List Marked

-- One pass over marks that a predicate describes.
sweep-marked :
    (test used : HeaderField → Bool) (fs : List HeaderField)
    → sweep test (marked used fs)
      ≡ (filter (λ f. not (used f) && test f) fs, marked (λ f. used f || test f) fs)
unfolding sweep
sweep-marked test used [] = refl
sweep-marked test used (f ∷ fs) = elim (Bool-cases (used f)) [
  | inl e ↦ rw (sweep-marked test used fs, e)
  | inr e ↦ elim (Bool-cases (test f)) [
    | inl k ↦ rw (sweep-marked test used fs, e, k)
    | inr k ↦ rw (sweep-marked test used fs, e, k)
  ]
]

abbrev classes : List String → (HeaderField → Bool) → List HeaderField → List HeaderField
classes [] used fs = []
classes (n ∷ ns) used fs =
    filter (λ f. not (used f) && named n f) fs ++ classes ns (λ f. used f || named n f) fs

abbrev used_after : List String → (HeaderField → Bool) → HeaderField → Bool
used_after [] used = used
used_after (n ∷ ns) used = used_after ns (λ f. used f || named n f)

sweep_names-marked :
    (ns : List String) (used : HeaderField → Bool) (fs : List HeaderField)
    → sweep_names ns (marked used fs) ≡ (classes ns used fs, marked (used_after ns used) fs)
unfolding sweep_names
sweep_names-marked [] used fs = refl
sweep_names-marked (n ∷ ns) used fs =
    rw (sweep-marked (named n) used fs, sweep_names-marked ns (λ f. used f || named n f) fs)

unmarked-marked : (fs : List HeaderField) → unmarked fs ≡ marked (λ _. false) fs
unfolding unmarked
unmarked-marked [] = refl
unmarked-marked (f ∷ fs) = ap (◌∷◌ (f, false)) (unmarked-marked fs)

filter_ext :
    (p q : HeaderField → Bool) (fs : List HeaderField)
    → ((f : HeaderField) → p f ≡ q f)
    → filter p fs ≡ filter q fs
filter_ext p q [] h = refl
filter_ext p q (f ∷ fs) h = rw (h f, filter_ext p q fs h)

order_shape :
    (fs : List HeaderField)
    → let used = used_after chromium_order (λ _. false) in
      chromium_header_order fs
      ≡ classes chromium_order (λ _. false) fs
        ++ (filter (λ f. not (used f) && is_pseudo f) fs
            ++ filter (λ f. not (used f || is_pseudo f) && true) fs)
unfolding chromium_header_order
order_shape fs =
    let used = used_after chromium_order (λ _. false) in
    rw (
      unmarked-marked fs,
      sweep_names-marked chromium_order (λ _. false) fs,
      sweep-marked is_pseudo used fs,
      sweep-marked (λ _. true) (λ f. used f || is_pseudo f) fs,
    )

regroup :
    (a b c d p r : List HeaderField)
    → (a ++ (b ++ (c ++ (d ++ [])))) ++ (p ++ r) ≡ a ++ (b ++ (c ++ (d ++ (p ++ r))))
regroup [] [] [] [] p r = refl
regroup [] [] [] (x ∷ d) p r = ap (◌∷◌ x) (regroup [] [] [] d p r)
regroup [] [] (x ∷ c) d p r = ap (◌∷◌ x) (regroup [] [] c d p r)
regroup [] (x ∷ b) c d p r = ap (◌∷◌ x) (regroup [] b c d p r)
regroup (x ∷ a) b c d p r = ap (◌∷◌ x) (regroup a b c d p r)

rank_0 : (a b c d p : Bool) → (not false && a) ≡ (rank a b c d p == 0)
rank_0 a b c d p = ground arith

rank_1 : (a b c d p : Bool) → (not (false || a) && b) ≡ (rank a b c d p == 1)
rank_1 a b c d p = ground arith

rank_2 : (a b c d p : Bool) → (not ((false || a) || b) && c) ≡ (rank a b c d p == 2)
rank_2 a b c d p = ground arith

rank_3 : (a b c d p : Bool) → (not (((false || a) || b) || c) && d) ≡ (rank a b c d p == 3)
rank_3 a b c d p = ground arith

rank_4 : (a b c d p : Bool) → (not ((((false || a) || b) || c) || d) && p) ≡ (rank a b c d p == 4)
rank_4 a b c d p = ground arith

rank_5 :
    (a b c d p : Bool)
    → (not (((((false || a) || b) || c) || d) || p) && true) ≡ (rank a b c d p == 5)
rank_5 a b c d p = ground arith

ranked :
    (P : (a b c d p : Bool) → Bool) (k : ℕ) (fs : List HeaderField)
    → ((a b c d p : Bool) → P a b c d p ≡ (rank a b c d p == k))
    → filter
        (λ f.
          P
            (named ":method" f)
            (named ":authority" f)
            (named ":scheme" f)
            (named ":path" f)
            (is_pseudo f))
        fs
      ≡ of_class k fs
ranked P k fs h = filter_ext _ _ fs (λ f. h _ _ _ _ _)

-- What the passes take are the classes.
rearranged :
    (fs : List HeaderField)
    → let used = used_after chromium_order (λ _. false) in
      classes chromium_order (λ _. false) fs
        ++ (filter (λ f. not (used f) && is_pseudo f) fs
            ++ filter (λ f. not (used f || is_pseudo f) && true) fs)
      ≡ by_class fs
rearranged fs =
    let k0 = ranked (λ a b c d p. not false && a) 0 fs rank_0 in
    let k1 = ranked (λ a b c d p. not (false || a) && b) 1 fs rank_1 in
    let k2 = ranked (λ a b c d p. not ((false || a) || b) && c) 2 fs rank_2 in
    let k3 = ranked (λ a b c d p. not (((false || a) || b) || c) && d) 3 fs rank_3 in
    let k4 = ranked (λ a b c d p. not ((((false || a) || b) || c) || d) && p) 4 fs rank_4 in
    let k5 =
      ranked (λ a b c d p. not (((((false || a) || b) || c) || d) || p) && true) 5 fs rank_5 in
    (λ i. (k0 i ++ (k1 i ++ (k2 i ++ (k3 i ++ [])))) ++ (k4 i ++ k5 i))
    ∙ regroup (of_class 0 fs) (of_class 1 fs) (of_class 2 fs) (of_class 3 fs) (of_class 4 fs)
        (of_class 5 fs)

-- The passes give the fields class by class, in the order they had within each class.
pub header_order-by_class : (fs : List HeaderField) → chromium_header_order fs ≡ by_class fs
header_order-by_class fs = order_shape fs ∙ rearranged fs

rank_cases :
    (a b c d p : Bool)
    → let k = rank a b c d p in (k ≡ 0) ⊎ ((k ≡ 1) ⊎ ((k ≡ 2) ⊎ ((k ≡ 3) ⊎ ((k ≡ 4) ⊎ (k ≡ 5)))))
rank_cases a b c d p = ground arith

-- A field that moves over a list of fields.
over :
    (f : HeaderField) (xs : List HeaderField) {ys zs : List HeaderField}
    → Perm (f ∷ ys) zs
    → Perm (f ∷ (xs ++ ys)) (xs ++ zs)
over f [] h = h
over f (x ∷ xs) {ys} h = Perm.trans (Perm.swap x f (xs ++ ys)) (Perm.cons x (over f xs h))

by_class-perm :
    (f : HeaderField) (fs : List HeaderField) → Perm (f ∷ by_class fs) (by_class (f ∷ fs))
by_class-perm f fs =
    let here : ℕ → List HeaderField = λ k. of_class k fs in
    elim (rank_cases (named ":method" f) (named ":authority" f) (named ":scheme" f)
      (named ":path" f) (is_pseudo f)) [
        | inl e ↦ rw e Perm.rfl
        | inr (inl e) ↦ rw e (over f (here 0) Perm.rfl)
        | inr (inr (inl e)) ↦ rw e (over f (here 0) (over f (here 1) Perm.rfl))
        | inr (inr (inr (inl e))) ↦
            rw e (over f (here 0) (over f (here 1) (over f (here 2) Perm.rfl)))
        | inr (inr (inr (inr (inl e)))) ↦
            rw e (over f (here 0) (over f (here 1) (over f (here 2) (over f (here 3) Perm.rfl))))
        | inr (inr (inr (inr (inr e)))) ↦ rw e (
            over f (here 0)
              (over f (here 1) (over f (here 2) (over f (here 3) (over f (here 4) Perm.rfl)))))
      ]

sorted-perm : (fs : List HeaderField) → Perm fs (by_class fs)
sorted-perm [] = Perm.rfl
sorted-perm (f ∷ fs) = Perm.trans (Perm.cons f (sorted-perm fs)) (by_class-perm f fs)

-- The fields that Chromium's order gives are those of the block: none is lost, none is made up, and
-- none is written twice.
pub header_order-perm : (fs : List HeaderField) → Perm fs (chromium_header_order fs)
header_order-perm fs = subst (Perm fs) (sym (header_order-by_class fs)) (sorted-perm fs)
