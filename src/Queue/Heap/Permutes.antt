-- ===== src/Queue/Heap/Permutes.antt =====
-- The heap operations only move packets: they lose none and make none up.
use mathlib.Core.List.{Perm, Permᴰ, perm_middle}
use mathlib.Core.Logic.{∥∥₁_elim}
use native.Mathlib.Nat.{ℕ_set}
use mathlib.Core.List.Perm
use sing_xhttp.Common.{
  ℕ, zero, suc, ◌+◌, ◌-◌, ◌*◌, ◌/◌, ◌≡◌, refl, ap, sym, ◌∙◌, inl, inr, ◌||◌, not, none, some, [],
  ◌∷◌, ◌++◌, length, get_elem?, set, leb, ◌==◌, arith, Option-cases, append-nil, Bool-cases,
}
use sing_xhttp.Queue.Heap.{
  Packet, UploadHeap, less, swap, up, smaller_child, down, push, split_last, pop,
}

-- A write trades the old element for the new one.
set-perm :
    (h : UploadHeap) (i : ℕ) (p r : Packet) → get_elem? h i ≡ some p → Perm (r ∷ h) (p ∷ set h i r)
set-perm [] i p r e = cc
set-perm (x ∷ xs) zero p r e = Perm.trans (Perm.swap x r xs) (Perm.cons' (cc) Perm.rfl)
set-perm (x ∷ xs) (suc i) p r e =
    Perm.trans (Perm.swap x r xs)
      (Perm.trans (Perm.cons x (set-perm xs i p r e)) (Perm.swap p x (set xs i r)))

get_elem?-set :
    (h : UploadHeap) (i j : ℕ) (p r : Packet)
    → get_elem? h i ≡ some p
    → get_elem? h j ≡ some r
    → get_elem? (set h i r) j ≡ some r
get_elem?-set [] i j p r e k = cc
get_elem?-set (x ∷ xs) zero zero p r e k = refl
get_elem?-set (x ∷ xs) zero (suc j) p r e k = k
get_elem?-set (x ∷ xs) (suc i) zero p r e k = k
get_elem?-set (x ∷ xs) (suc i) (suc j) p r e k = get_elem?-set xs i j p r e k

swap-perm : (h : UploadHeap) (i j : ℕ) → Perm h (swap h i j)
unfolding swap
swap-perm h i j = elim (Option-cases (get_elem? h i)) [
  | inl e ↦ rw (e, swap) Perm.rfl
  | inr (p, e) ↦ elim (Option-cases (get_elem? h j)) [
    | inl k ↦ rw (e, k, swap) Perm.rfl
    | inr (r, k) ↦
        rw (e, k, swap)
          (Perm.cons_inv (
            Perm.trans (set-perm h i p r e)
              (set-perm (set h i r) j r p (get_elem?-set h i j p r e k))))
  ]
]

up-perm : (fuel : ℕ) (h : UploadHeap) (j : ℕ) → Perm h (up fuel h j)
unfolding up
up-perm zero h j = Perm.rfl
up-perm (suc fuel) h j = elim (Bool-cases (((j - 1) / 2) == j || not (less h j ((j - 1) / 2)))) [
  | inl e ↦ rw e Perm.rfl
  | inr e ↦ rw e (Perm.trans (swap-perm h ((j - 1) / 2) j) (up-perm fuel _ ((j - 1) / 2)))
]

down-perm : (fuel : ℕ) (h : UploadHeap) (i n : ℕ) → Perm h (down fuel h i n)
unfolding down
down-perm zero h i n = Perm.rfl
down-perm (suc fuel) h i n =
    elim (Bool-cases (leb n (2 * i + 1) || not (less h (smaller_child h n (2 * i + 1)) i))) [
      | inl e ↦ rw e Perm.rfl
      | inr e ↦ rw e (Perm.trans (swap-perm h i _) (down-perm fuel _ _ n))
    ]

-- heap.Push adds the packet, and keeps the others.
pub push-perm : (h : UploadHeap) (p : Packet) → Perm (p ∷ h) (push h p)
unfolding push
push-perm h p =
    Perm.trans (Perm.symm (rw append-nil at (perm_middle {a = p} h [])))
      (up-perm (length h) (h ++ (p ∷ [])) (length h))

split_last-eq-none : (h : UploadHeap) → split_last h ≡ none → h ≡ []
unfolding split_last
split_last-eq-none [] e = refl
split_last-eq-none (p ∷ ps) e = ground arith

split_last-perm :
    (h : UploadHeap) (p : Packet) (front : UploadHeap)
    → split_last h ≡ some (p, front)
    → Perm h (p ∷ front)
unfolding split_last
split_last-perm [] p front e = cc
split_last-perm (x ∷ xs) p front e = elim (Option-cases (split_last xs)) [
  | inl k ↦
      let alone : x ∷ [] ≡ p ∷ front = ground arith in rw (split_last-eq-none xs k, alone) Perm.rfl
  | inr ((r, rest), k) ↦
      let parts : p ∷ front ≡ r ∷ x ∷ rest = ground arith in
      rw parts (Perm.trans (Perm.cons x (split_last-perm xs r rest k)) (Perm.swap r x rest))
]

-- heap.Pop takes one packet out, and keeps the others.
pub pop-perm :
    (h : UploadHeap) (p : Packet) (rest : UploadHeap) → pop h ≡ some (p, rest) → Perm h (p ∷ rest)
unfolding pop
pop-perm h p rest e =
    Perm.trans (swap-perm h 0 (length h - 1))
      (Perm.trans (down-perm (length h) _ 0 (length h - 1)) (split_last-perm _ p rest e))

length-permᴰ : (xs ys : UploadHeap) → Permᴰ xs ys → length xs ≡ length ys
length-permᴰ xs ys Permᴰ.nil = refl
length-permᴰ xs ys (Permᴰ.cons e d) = ap suc (length-permᴰ _ _ d)
length-permᴰ xs ys (Permᴰ.swap e k) = refl
length-permᴰ xs ys (Permᴰ.trans d k) = length-permᴰ _ _ d ∙ length-permᴰ _ _ k

length-perm : {xs ys : UploadHeap} → Perm xs ys → length xs ≡ length ys
length-perm {xs} {ys} p = ∥∥₁_elim p (ℕ_set _ _) (length-permᴰ xs ys)

pub length-push : (h : UploadHeap) (p : Packet) → length (push h p) ≡ suc (length h)
length-push h p = sym (length-perm (push-perm h p))

pub length-pop :
    (h : UploadHeap) (p : Packet) (rest : UploadHeap)
    → pop h ≡ some (p, rest)
    → length h ≡ suc (length rest)
length-pop h p rest e = length-perm (pop-perm h p rest e)
