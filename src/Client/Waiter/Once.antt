-- ===== src/Client/Waiter/Once.antt =====
-- Every body that a waiter is given is closed once, over any interleaving of its methods.
use sing_xhttp.Common.{
  ℕ, suc, ◌+◌, ◌≡◌, ◌≢◌, refl, ap, sym, ◌∙◌, inl, inr, Bool, true, false, not, ◌||◌, ◌&&◌, Option,
  none, some, List, [], ◌∷◌, ◌++◌, ◌==◌, arith, if◌then◌else◌, Bool-cases,
}
use sing_xhttp.Client.Waiter.{
  WaitError, closed_conn, Waiter, new_waiter, Event, set_body, close_with_error, close, open_ready,
  held_list, or_error, is_some, step, run,
}

-- How often a number stands in a list.
abbrev pub count : ℕ → List ℕ → ℕ
count b [] = 0
count b (x ∷ xs) = if x == b then suc (count b xs) else count b xs

count-append : (b : ℕ) (xs ys : List ℕ) → count b (xs ++ ys) ≡ count b xs + count b ys
count-append b [] ys = omega arith
count-append b (x ∷ xs) ys = ground (arith, count-append b xs ys)

-- Given as often as closed or held.
abbrev pub Balanced : Waiter → Type 0
Balanced w = (b : ℕ) → count b w.given ≡ count b w.shut + count b (held_list w.body)

-- A closed waiter holds no body, and keeps an error.
abbrev IsShut : Waiter → Type 0
IsShut w = w.closed ≡ true → (w.body ≡ none) × (is_some w.err ≡ true)

no_body : (o : Option ℕ) → is_some o ≡ false → o ≡ none
no_body none e = refl
no_body (some b) e = cc

or_false : (a b : Bool) → (a || b) ≡ false → (a ≡ false) × (b ≡ false)
or_false true b e = cc
or_false false b e = (refl, e)

nothing_held :
    (w : Waiter) → (w.closed || (is_some w.err || is_some w.body)) ≡ false → w.body ≡ none
nothing_held w e =
    no_body w.body (or_false (is_some w.err) (is_some w.body) (or_false w.closed _ e).1).1

none_held :
    (w : Waiter) (b : ℕ)
    → (w.closed || (is_some w.err || is_some w.body)) ≡ false
    → count b (held_list w.body) ≡ 0
none_held w b e = ap (λ o. count b (held_list o)) (nothing_held w e)

step-Balanced : (w : Waiter) (e : Event) → Balanced w → Balanced (step w e)
unfolding step
step-Balanced w (set_body x) h b =
    elim (Bool-cases (w.closed || (is_some w.err || is_some w.body))) [
      | inl refuse ↦ rw refuse (ground (arith, h b))
      | inr keep ↦ rw keep (ground (arith, h b, none_held w b keep))
    ]
step-Balanced w (close_with_error e) h b = elim (Bool-cases (not w.closed && not (is_some w.err))) [
  | inl e ↦ rw e (h b)
  | inr e ↦ rw e (h b)
]
step-Balanced w close h b = omega (arith, h b, count-append b (held_list w.body) w.shut)
step-Balanced w open_ready h b = h b

true_ne_false : true ≢ false
true_ne_false e = cc

keeps_error : (o : Option WaitError) (e : WaitError) → is_some (or_error o e) ≡ true
keeps_error none e = refl
keeps_error (some x) e = refl

step-IsShut : (w : Waiter) (e : Event) → IsShut w → IsShut (step w e)
unfolding step
step-IsShut w (set_body x) h = elim (Bool-cases (w.closed || (is_some w.err || is_some w.body))) [
  | inl refuse ↦ rw refuse h
  | inr keep ↦ rw keep (λ shut. absurd (true_ne_false (sym shut ∙ (or_false w.closed _ keep).0)))
]
step-IsShut w (close_with_error x) h = elim (Bool-cases (not w.closed && not (is_some w.err))) [
  | inl e ↦ rw e (λ shut. ((h shut).0, refl))
  | inr e ↦ rw e h
]
step-IsShut w close h = λ shut. (refl, keeps_error w.err closed_conn)
step-IsShut w open_ready h = h

run-Sound :
    (w : Waiter) (es : List Event) → Balanced w → IsShut w → Balanced (run w es) × IsShut (run w es)
unfolding run
run-Sound w [] h k = (h, k)
run-Sound w (e ∷ es) h k = run-Sound (step w e) es (step-Balanced w e h) (step-IsShut w e k)

-- Over any interleaving of the methods, in whatever order bodies arrive, errors are reported and
-- Close is called, also repeatedly: once the waiter is closed, every body that it was ever given,
-- before or after, has been closed as often as it was given, and an error is kept for the Reads.
pub bodies_closed_once :
    (es : List Event) (b : ℕ)
    → (run new_waiter es).closed ≡ true
    → (count b (run new_waiter es).shut ≡ count b (run new_waiter es).given)
      × (is_some (run new_waiter es).err ≡ true)
bodies_closed_once es b closed =
    let (balanced, shut) = run-Sound new_waiter es (λ c. refl) (λ e. cc) in
    let empty : count b (held_list (run new_waiter es).body) ≡ 0 =
      ap (λ o. count b (held_list o)) (shut closed).0 in
    (omega (arith, balanced b, empty), (shut closed).1)
