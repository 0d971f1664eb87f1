-- ===== src/H1/Retries.antt =====
-- Which connection decides what sendH1Request returns.
use sing_xhttp.Common.{
  ℕ, ◌≡◌, refl, ap, sym, subst, ◌∙◌, inl, inr, Bool, true, false, Option, none, some, List, [], ◌∷◌,
  ◌==◌, ltb, arith, if◌then◌else◌, All, Bool-cases, Option-cases, if_true, if_false,
}
use sing_xhttp.H1.{
  H1Conn, Sent, ok, dial_error, write_error, response_error, bad_status, Turn, put_back, give_up,
  next, read_response, write_request, turn, Done, settle, send_fresh, send_loop, send_h1_request,
}

-- A response's status as a result.
abbrev pub by_status : ℕ → Sent
by_status code = if code == 200 then ok else bad_status code

-- The status that a connection answers the request with, if it takes it and answers.
abbrev pub answer_of : H1Conn → Option ℕ
answer_of c = if c.takes_request then c.response else none

-- What is to be returned: by the first answer, else by what becomes of the new connection.
abbrev pub by_fresh : Option H1Conn → Sent
by_fresh none = dial_error
by_fresh (some c) =
    if c.takes_request
    then elim c.response [ none ↦ response_error | some code ↦ by_status code ]
    else write_error

abbrev pub first_answer : List H1Conn → Option H1Conn → Sent
first_answer [] fresh = by_fresh fresh
first_answer (c ∷ cs) fresh = elim (answer_of c) [
  | none ↦ first_answer cs fresh
  | some code ↦ by_status code
]

-- The connections tried in front of the answer, and the one that answered if its status is not 200.
abbrev pub Drained : H1Conn → Type 0
Drained c = c.unread ≡ 0

turn-Drained : (c : H1Conn) → Drained c → turn false c ≡ write_request false c
unfolding turn
turn-Drained c h = if_false (ltb 0 c.unread) _ _ (ground (arith, h))

-- One turn, by the connection's answer.
reused :
    (c : H1Conn) (later : Done)
    → (settle c (write_request false c) later).sent
      ≡ elim (answer_of c) [ none ↦ later.sent | some code ↦ by_status code ]
unfolding write_request read_response
reused c later = elim (Bool-cases c.takes_request) [
  | inl takes ↦ elim (Option-cases c.response) [
    | inl silent ↦ rw (takes, silent) refl
    | inr (code, e) ↦ elim (Bool-cases (code == 200)) [
      | inl good ↦ rw (takes, e, good) refl
      | inr bad ↦ rw (takes, e, bad) refl
    ]
  ]
  | inr refuses ↦ rw refuses refl
]

fresh_by : (fresh : Option H1Conn) → (send_fresh fresh).sent ≡ by_fresh fresh
unfolding send_fresh turn write_request read_response
fresh_by none = refl
fresh_by (some c) = elim (Bool-cases c.takes_request) [
  | inl takes ↦ elim (Option-cases c.response) [
    | inl silent ↦ rw (takes, silent) refl
    | inr (code, e) ↦ elim (Bool-cases (code == 200)) [
      | inl good ↦ rw (takes, e, good) refl
      | inr bad ↦ rw (takes, e, bad) refl
    ]
  ]
  | inr refuses ↦ rw refuses refl
]

loop_by :
    (pool : List H1Conn) (fresh : Option H1Conn)
    → All Drained pool
    → (send_loop pool fresh).sent ≡ first_answer pool fresh
unfolding send_loop
loop_by [] fresh h = fresh_by fresh
loop_by (c ∷ cs) fresh h =
    ap (λ t. (settle c t (send_loop cs fresh)).sent) (turn-Drained c h.0)
    ∙ reused c (send_loop cs fresh)
    ∙ ap (λ rest. elim (answer_of c) as (λ o. Sent) [ none ↦ rest | some code ↦ by_status code ])
        (loop_by cs fresh h.1)

-- What goes back into the pool.
abbrev pub PutBack : Option H1Conn → Type 0
PutBack none = Unit
PutBack (some c) = Drained c × (answer_of c ≡ some 200)

abbrev TurnPuts : Turn → Type 0
TurnPuts (put_back c) = Drained c × (answer_of c ≡ some 200)
TurnPuts _ = Unit

settle-PutBack :
    (c : H1Conn) (t : Turn) (later : Done)
    → TurnPuts t
    → PutBack later.pooled
    → PutBack (settle c t later).pooled
settle-PutBack c (put_back c') later h k = h
settle-PutBack c (give_up e) later h k = tt
settle-PutBack c next later h k = k

-- A turn that is no put-back puts nothing.
no_put : (is_new : Bool) (e : Sent) → TurnPuts (if is_new then give_up e else next)
no_put true e = tt
no_put false e = tt

refused_turn :
    (is_new : Bool) (c : H1Conn)
    → c.takes_request ≡ false
    → write_request is_new c ≡ (if is_new then give_up write_error else next)
unfolding write_request
refused_turn is_new c e = if_false c.takes_request _ _ e

silent_turn :
    (is_new : Bool) (c : H1Conn)
    → c.takes_request ≡ true
    → c.response ≡ none
    → write_request is_new c ≡ (if is_new then give_up response_error else next)
unfolding write_request read_response
silent_turn is_new c e k = if_true c.takes_request _ _ e ∙ rw k refl

answered_turn :
    (is_new : Bool) (c : H1Conn) (code : ℕ)
    → c.takes_request ≡ true
    → c.response ≡ some code
    → write_request is_new c ≡ (if code == 200 then put_back c else give_up (bad_status code))
unfolding write_request read_response
answered_turn is_new c code e k = if_true c.takes_request _ _ e ∙ rw k refl

turn-Puts : (is_new : Bool) (c : H1Conn) → Drained c → TurnPuts (write_request is_new c)
turn-Puts is_new c h = elim (Bool-cases c.takes_request) [
  | inr refuses ↦ subst TurnPuts (sym (refused_turn is_new c refuses)) (no_put is_new write_error)
  | inl takes ↦ elim (Option-cases c.response) [
    | inl silent ↦
        subst TurnPuts (sym (silent_turn is_new c takes silent)) (no_put is_new response_error)
    | inr (code, e) ↦ elim (Bool-cases (code == 200)) [
      | inl good ↦
          subst TurnPuts
            (sym (answered_turn is_new c code takes e ∙ if_true (code == 200) _ _ good))
            (h, if_true c.takes_request _ _ takes ∙ e ∙ ap some (ground (arith, good)))
      | inr bad ↦
          subst TurnPuts
            (sym (answered_turn is_new c code takes e ∙ if_false (code == 200) _ _ bad)) tt
    ]
  ]
]

fresh_turn : (c : H1Conn) → turn true c ≡ write_request true c
unfolding turn
fresh_turn c = refl

loop-PutBack :
    (pool : List H1Conn) (fresh : Option H1Conn)
    → All Drained pool
    → ((c : H1Conn) → fresh ≡ some c → Drained c)
    → PutBack (send_loop pool fresh).pooled
unfolding send_loop send_fresh
loop-PutBack [] none h k = tt
loop-PutBack [] (some c) h k =
    settle-PutBack c (turn true c) _
      (subst TurnPuts (sym (fresh_turn c)) (turn-Puts true c (k c refl))) tt
loop-PutBack (c ∷ cs) fresh h k =
    settle-PutBack c (turn false c) (send_loop cs fresh)
      (subst TurnPuts (sym (turn-Drained c h.0)) (turn-Puts false c h.0))
      (loop-PutBack cs fresh h.1 k)

-- With pooled connections that have no unread response, as all that were put back have: the call
-- ends, and returns what the first connection that answers says, nil for 200 and an error with the
-- status otherwise; if none answers, what the new connection comes to. A failure of a reused
-- connection is never returned. The connection that is put back, if one is, has no unread response
-- either, and is one that answered 200.
pub send_first_answer :
    (pool : List H1Conn) (fresh : Option H1Conn)
    → All Drained pool
    → ((c : H1Conn) → fresh ≡ some c → Drained c)
    → ((send_h1_request true pool fresh).sent ≡ first_answer pool fresh)
      × PutBack (send_h1_request true pool fresh).pooled
unfolding send_h1_request
send_first_answer pool fresh h k = (loop_by pool fresh h, loop-PutBack pool fresh h k)
