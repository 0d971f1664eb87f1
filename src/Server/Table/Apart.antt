-- ===== src/Server/Table/Apart.antt =====
-- No two IDs share a session, over any sequence of what handlers do with the map.
use sing_xhttp.Common.{
  ℕ, zero, suc, ◌≤◌, ◌<◌, ◌≡◌, ◌≢◌, refl, ap, sym, ◌∙◌, inl, inr, none, some, List, [], ◌∷◌, ◌++◌,
  length, get_elem?, set, arith, All, Bool-cases, Option-cases, length-append,
}
use sing_xhttp.Common.Int.{ℤ}
use sing_xhttp.Common.Text.{Bytes}
use sing_xhttp.Common.Strings.{bytes_eq, bytes_eq_iff}
use sing_xhttp.Server.Table.{
  Entry, Sessions, lookup, remove, new_entry, upsert_session, delete_session, is_at, close_at, reap,
}

-- Every place is one of the objects', and no place or ID stands twice.
abbrev pub Sound : ℕ → List (Bytes × ℕ) → Type 0
Sound n [] = Unit
Sound n ((id, p) ∷ t) = (p < n) × All (λ e. e.1 ≢ p) t × (lookup id t ≡ none) × Sound n t

pub Sound-lookup :
    (n p : ℕ) (id : Bytes) (t : List (Bytes × ℕ)) → Sound n t → lookup id t ≡ some p → p < n
unfolding lookup
Sound-lookup n p id [] h e = absurd (cc)
Sound-lookup n p id ((j, q) ∷ t) h e = ground (arith, Sound-lookup n p id t h.3, h.0)

Sound-more : (m n : ℕ) (t : List (Bytes × ℕ)) → m ≤ n → Sound m t → Sound n t
Sound-more m n [] le h = tt
Sound-more m n ((id, p) ∷ t) le h = (omega (arith, h.0), h.1, h.2, Sound-more m n t le h.3)

new_place : (n : ℕ) (t : List (Bytes × ℕ)) → Sound n t → All (λ e. e.1 ≢ n) t
new_place n [] h = tt
new_place n ((id, p) ∷ t) h = ((λ e. omega (arith, h.0)), new_place n t h.3)

remove-All :
    (P : Bytes × ℕ → Type 0) (id : Bytes) (t : List (Bytes × ℕ)) → All P t → All P (remove id t)
unfolding remove
remove-All P id [] h = tt
remove-All P id ((j, p) ∷ t) h = elim (Bool-cases (bytes_eq j id)) [
  | inl e ↦ rw e (remove-All P id t h.1)
  | inr e ↦ rw e (h.0, remove-All P id t h.1)
]

lookup-remove :
    (j id : Bytes) (t : List (Bytes × ℕ)) → lookup j t ≡ none → lookup j (remove id t) ≡ none
unfolding lookup remove
lookup-remove j id [] h = refl
lookup-remove j id ((i, p) ∷ t) h = ground (arith, lookup-remove j id t)

remove-Sound : (n : ℕ) (id : Bytes) (t : List (Bytes × ℕ)) → Sound n t → Sound n (remove id t)
unfolding remove
remove-Sound n id [] h = tt
remove-Sound n id ((j, p) ∷ t) h = elim (Bool-cases (bytes_eq j id)) [
  | inl e ↦ rw e (remove-Sound n id t h.3)
  | inr e ↦
      rw e
        (h.0, remove-All (λ e. e.1 ≢ p) id t h.1, lookup-remove j id t h.2, remove-Sound n id t h.3)
]

-- The map's places are sound.
abbrev pub IsSound : Sessions → Type 0
IsSound s = Sound (length s.objects) s.table

pub upsert-IsSound :
    (max : ℤ) (id : Bytes) (s : Sessions) → IsSound s → IsSound (upsert_session max id s).1
unfolding upsert_session
upsert-IsSound max id s h = elim (Option-cases (lookup id s.table)) [
  | inr (p, e) ↦ rw (e, upsert_session) h
  | inl e ↦
      rw (e, upsert_session)
        (
          omega (arith, length-append s.objects (new_entry max ∷ [])),
          new_place (length s.objects) s.table h,
          e,
          Sound-more (length s.objects) (length (s.objects ++ (new_entry max ∷ []))) s.table
              (omega (arith, length-append s.objects (new_entry max ∷ []))) h,
        )
]

found_first : (id : Bytes) (p : ℕ) (t : List (Bytes × ℕ)) → lookup id ((id, p) ∷ t) ≡ some p
unfolding lookup
found_first id p t = rw ((bytes_eq_iff id id).1 refl) refl

-- The session that is given is the one the map holds afterwards.
pub lookup-upsert :
    (max : ℤ) (id : Bytes) (s : Sessions)
    → lookup id (upsert_session max id s).1.table ≡ some (upsert_session max id s).0
unfolding upsert_session
lookup-upsert max id s = elim (Option-cases (lookup id s.table)) [
  | inr (p, e) ↦ rw (e, upsert_session) e
  | inl e ↦ rw (e, upsert_session) (found_first id (length s.objects) s.table)
]

pub length-set {ℓ} : {A : Type ℓ} (xs : List A) (i : ℕ) (v : A) → length (set xs i v) ≡ length xs
length-set [] i v = refl
length-set (x ∷ xs) zero v = refl
length-set (x ∷ xs) (suc i) v = ap suc (length-set xs i v)

length-close_at : (p : ℕ) (objects : List Entry) → length (close_at p objects) ≡ length objects
unfolding close_at
length-close_at p objects = elim (Option-cases (get_elem? objects p)) [
  | inl e ↦ rw (e, close_at) refl
  | inr (x, e) ↦ rw (e, close_at) (length-set objects p _)
]

pub delete-IsSound : (id : Bytes) (s : Sessions) → IsSound s → IsSound (delete_session id s)
unfolding delete_session
delete-IsSound id s h = remove-Sound (length s.objects) id s.table h

pub reap-IsSound : (id : Bytes) (p : ℕ) (s : Sessions) → IsSound s → IsSound (reap id p s)
unfolding reap
reap-IsSound id p s h = elim (Bool-cases (is_at p (lookup id s.table))) [
  | inl e ↦ rw (length-close_at p s.objects, e) (remove-Sound (length s.objects) id s.table h)
  | inr e ↦ rw (length-close_at p s.objects, e) h
]

-- The holders of a place.
place_ne :
    (p q : ℕ) (id : Bytes) (t : List (Bytes × ℕ))
    → lookup id t ≡ some p
    → All (λ e. e.1 ≢ q) t
    → p ≢ q
unfolding lookup
place_ne p q id [] e h same = absurd (cc)
place_ne p q id ((j, i) ∷ t) e h same = absurd (ground (arith, place_ne p q id t, h.0, h.1))

pub one_holder :
    (n p : ℕ) (a b : Bytes) (t : List (Bytes × ℕ))
    → Sound n t
    → lookup a t ≡ some p
    → lookup b t ≡ some p
    → a ≡ b
unfolding lookup
one_holder n p a b [] h e k = absurd (cc)
one_holder n p a b ((j, i) ∷ t) h e k = elim (Bool-cases (bytes_eq j a)) [
  | inl is_a ↦ elim (Bool-cases (bytes_eq j b)) [
    | inl is_b ↦ sym ((bytes_eq_iff j a).0 is_a) ∙ (bytes_eq_iff j b).0 is_b
    | inr not_b ↦ absurd (ground (arith, place_ne p i b t, h.1))
  ]
  | inr not_a ↦ elim (Bool-cases (bytes_eq j b)) [
    | inl is_b ↦ absurd (ground (arith, place_ne p i a t, h.1))
    | inr not_b ↦ one_holder n p a b t h.3 (ground (arith, e)) (ground (arith, k))
  ]
]
