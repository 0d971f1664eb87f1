-- ===== src/Xmux/Pick.antt =====
-- Which client Pick gives, and when it makes a new one.
use native.Mathlib.Nat.{mod-lt}
use sing_xhttp.Common.{
  ℕ, zero, suc, ◌<◌, ◌≡◌, refl, ap, ◌∙◌, ◌⊎◌, inl, inr, true, false, ◌&&◌, some, List, [], ◌∷◌, leb,
  length, length-zero, get_elem?, All, arith, Bool-cases,
}
use sing_xhttp.Common.Int.{ℤ, pos, ltb_ℤ, is_positive}
use sing_xhttp.Xmux.{
  XmuxClient, XmuxManager, Draws, fresh_client, new_client, retired, sweep, below, candidates,
  rand_index, use_up, pick_from, pick,
}

-- The client stands in the list.
abbrev pub Among : XmuxClient → List XmuxClient → Type 0
Among c [] = ⊥
Among c (d ∷ ds) = (c ≡ d) ⊎ Among c ds

kept_first :
    (now : ℕ) (c d : XmuxClient) (ds ks : List XmuxClient)
    → retired now d ≡ false
    → (Among c ks → Among c ds × (retired now c ≡ false))
    → Among c (d ∷ ks)
    → Among c (d ∷ ds) × (retired now c ≡ false)
kept_first now c d ds ks e ih (inl same) = (inl same, ap (retired now) same ∙ e)
kept_first now c d ds ks e ih (inr k) = let (there, live) = ih k in (inr there, live)

sweep-kept :
    (now : ℕ) (c : XmuxClient) (cs : List XmuxClient)
    → Among c (sweep now cs).0
    → Among c cs × (retired now c ≡ false)
unfolding sweep
sweep-kept now c [] h = absurd h
sweep-kept now c (d ∷ ds) h = elim (Bool-cases (retired now d)) [
  | inl e ↦ let (k, live) = sweep-kept now c ds (rw e at h) in (inr k, live)
  | inr e ↦ kept_first now c d ds (sweep now ds).0 e (sweep-kept now c ds) (rw e at h)
]

below-Among :
    (n : ℤ) (c : XmuxClient) (cs : List XmuxClient)
    → Among c (below n cs)
    → Among c cs × (ltb_ℤ c.open_usage n ≡ true)
unfolding below
below-Among n c [] h = absurd h
below-Among n c (d ∷ ds) h = elim (Bool-cases (ltb_ℤ d.open_usage n)) [
  | inl e ↦ elim (rw e at h) [
    | inl same ↦ (inl same, ap (λ x. ltb_ℤ x.open_usage n) same ∙ e)
    | inr k ↦ let (there, free) = below-Among n c ds k in (inr there, free)
  ]
  | inr e ↦ let (there, free) = below-Among n c ds (rw e at h) in (inr there, free)
]

-- No client is below the budget.
abbrev pub Saturated : ℤ → List XmuxClient → Type 0
Saturated n = All (λ c. ltb_ℤ c.open_usage n ≡ false)

below-none : (n : ℤ) (cs : List XmuxClient) → below n cs ≡ [] → Saturated n cs
unfolding below
below-none n [] h = tt
below-none n (c ∷ cs) h = elim (Bool-cases (ltb_ℤ c.open_usage n)) [
  | inl e ↦ absurd (cc (rw e at h))
  | inr e ↦ (e, below-none n cs (rw e at h))
]

get_elem-Among :
    (cs : List XmuxClient) (i : ℕ) (c : XmuxClient) → get_elem? cs i ≡ some c → Among c cs
get_elem-Among [] i c e = cc
get_elem-Among (d ∷ ds) zero c e = inl (cc)
get_elem-Among (d ∷ ds) (suc i) c e = inr (get_elem-Among ds i c e)

get_elem-lt :
    (cs : List XmuxClient) (i : ℕ) → i < length cs → (c : XmuxClient) × (get_elem? cs i ≡ some c)
get_elem-lt [] i h = absurd (omega arith)
get_elem-lt (c ∷ cs) zero h = (c, refl)
get_elem-lt (c ∷ cs) (suc i) h = get_elem-lt cs i (omega arith)

rand_index-lt : (n v : ℕ) → rand_index (suc n) v < suc n
unfolding rand_index
rand_index-lt n v = mod-lt v (omega arith)

-- A client of the pool that may take the session.
pub record IsFree (m : XmuxManager) (now : ℕ) (c : XmuxClient) : Type 0 where
  pub pooled : Among c m.clients
  pub live : retired now c ≡ false
  pub in_budget : is_positive m.concurrency ≡ true → ltb_ℤ c.open_usage m.concurrency ≡ true

-- Why a client is made: none is left, there are fewer than MaxConnections, or all are saturated.
pub data MustMake (m : XmuxManager) (kept : List XmuxClient) : Type 0 where
  empty_pool : kept ≡ [] → MustMake m kept
  below_cap :
      is_positive m.connections ≡ true
      → ltb_ℤ (pos (length kept)) m.connections ≡ true
      → MustMake m kept
  all_saturated : is_positive m.concurrency ≡ true → Saturated m.concurrency kept → MustMake m kept

candidates-IsFree :
    (m : XmuxManager) (now : ℕ) (c : XmuxClient)
    → Among c (candidates m.concurrency (sweep now m.clients).0)
    → IsFree m now c
unfolding candidates
candidates-IsFree m now c h = elim (Bool-cases (is_positive m.concurrency)) [
  | inl e ↦
      let (kept, free) = below-Among m.concurrency c (sweep now m.clients).0 (rw e at h) in
      let (there, live) = sweep-kept now c m.clients kept in
      record { pooled = there; live = live; in_budget = λ _. free }
  | inr e ↦
      let (there, live) = sweep-kept now c m.clients (rw e at h) in
      record { pooled = there; live = live; in_budget = λ p. cc (p, e) }
]

no_candidates :
    (m : XmuxManager) (kept : List XmuxClient)
    → candidates m.concurrency kept ≡ []
    → MustMake m kept
unfolding candidates
no_candidates m kept h = elim (Bool-cases (is_positive m.concurrency)) [
  | inl e ↦ all_saturated e (below-none m.concurrency kept (rw e at h))
  | inr e ↦ empty_pool (rw e at h)
]

-- The end of Pick.
pick_from-cases :
    (m : XmuxManager) (now : ℕ) (d : Draws) (cs : List XmuxClient)
    → ((cs ≡ []) × (pick_from m now d cs ≡ new_client m now d))
      ⊎ ((c : XmuxClient) × Among c cs × ((pick_from m now d cs).0 ≡ use_up c))
unfolding pick_from
pick_from-cases m now d [] = inl (refl, refl)
pick_from-cases m now d (c ∷ cs) =
    let at_ = rand_index (suc (length cs)) d.index in
    let (k, e) = get_elem-lt (c ∷ cs) at_ (rand_index-lt (length cs) d.index) in
    inr (k, get_elem-Among (c ∷ cs) at_ k e, rw (e, pick_from))

abbrev kept_of : XmuxManager → ℕ → List XmuxClient
kept_of m now = (sweep now m.clients).0

abbrev swept : XmuxManager → ℕ → XmuxManager
swept m now = record m { clients = kept_of m now }

made_new :
    (m : XmuxManager) (now : ℕ) (d : Draws)
    → (new_client (swept m now) now d).0 ≡ fresh_client m now d
unfolding new_client fresh_client
made_new m now d = refl

module _ (m : XmuxManager) (now : ℕ) (d : Draws) where
  pick_empty :
      leb (length (kept_of m now)) 0 ≡ true → (pick m now d).0 ≡ (new_client (swept m now) now d).0
  unfolding pick
  pick_empty e = rw (e, pick)

  pick_below :
      leb (length (kept_of m now)) 0 ≡ false
      → (is_positive m.connections && ltb_ℤ (pos (length (kept_of m now))) m.connections) ≡ true
      → (pick m now d).0 ≡ (new_client (swept m now) now d).0
  unfolding pick
  pick_below e k = rw (e, k, pick)

  pick_candidate :
      leb (length (kept_of m now)) 0 ≡ false
      → (is_positive m.connections && ltb_ℤ (pos (length (kept_of m now))) m.connections) ≡ false
      → (pick m now d).0
        ≡ (pick_from (swept m now) now d (candidates m.concurrency (kept_of m now))).0
  unfolding pick
  pick_candidate e k = rw (e, k, pick)

  -- Pick gives either a client of the pool that is not retired and, with a concurrency limit, has
  -- fewer open sessions than the limit, one return used up; or a client that it makes, and then
  -- the pool was empty, or below MaxConnections, or saturated.
  pub pick_sound :
      ((c : XmuxClient) × IsFree m now c × ((pick m now d).0 ≡ use_up c))
      ⊎ (MustMake m (sweep now m.clients).0 × ((pick m now d).0 ≡ fresh_client m now d))
  pick_sound = elim (Bool-cases (leb (length (kept_of m now)) 0)) [
    | inl e ↦ inr (
      empty_pool (length-zero (kept_of m now) (ground (arith, e))),
      pick_empty e ∙ made_new m now d,
    )
    | inr e ↦
        elim (Bool-cases
          (is_positive m.connections && ltb_ℤ (pos (length (kept_of m now))) m.connections)) [
            | inl k ↦ inr (
              below_cap (ground (arith, k)) (ground (arith, k)),
              pick_below e k ∙ made_new m now d,
            )
            | inr k ↦
                elim (pick_from-cases (swept m now) now d
                  (candidates m.concurrency (kept_of m now))) [
                    | inl (none_left, same) ↦ inr (
                      no_candidates m (kept_of m now) none_left,
                      pick_candidate e k ∙ ap (λ r. r.0) same ∙ made_new m now d,
                    )
                    | inr (c, among, same) ↦
                        inl (c, candidates-IsFree m now c among, pick_candidate e k ∙ same)
                  ]
          ]
  ]
