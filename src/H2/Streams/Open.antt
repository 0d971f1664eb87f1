-- ===== src/H2/Streams/Open.antt =====
-- The streams after any sequence of events: each stream by its own events, and the order.
use sing_xhttp.Common.{
  ℕ, ◌≡◌, refl, inl, inr, sym, ◌∙◌, subst, ap, Bool, true, false, ◌&&◌, Option, none, some, List,
  [], ◌∷◌, ◌++◌, ◌==◌, ==_iff, if◌then◌else◌, arith, Bool-cases, Option-cases,
}
use sing_xhttp.H2.Streams.{
  Streams, StreamState, state_of, set_state, delete, remove_stream, remove_if_done, note_local_end,
  note_remote_end, note_local_headers, fresh, first_ended,
}

-- What the frames of the two directions tell of a stream.
pub data Event : Type 0 where
  headers_sent : ℕ → Bool → Event
  local_end : ℕ → Event
  remote_end : ℕ → Event
  reset : ℕ → Event

unfoldable pub step : Streams → Event → Streams
step st (headers_sent id ended) = (note_local_headers id ended st).1
step st (local_end id) = note_local_end id st
step st (remote_end id) = note_remote_end id st
step st (reset id) = remove_stream id st

unfoldable pub run : Streams → List Event → Streams
run st [] = st
run st (e ∷ es) = run (step st e) es

-- One stream alone: it is open in a state, or not open.
unless_done : StreamState → Option StreamState
unless_done s = if s.local_ended && s.remote_ended then none else some s

unfoldable pub advance : ℕ → Option StreamState → Event → Option StreamState
unfolding unless_done
advance id o (headers_sent j ended) =
    if j == id
    then (elim o [
      | none ↦ some (if ended then first_ended else fresh)
      | some s ↦ if ended then unless_done (record s { local_ended = true }) else some s
    ])
    else o
advance id o (local_end j) =
    if j == id
    then (elim o [ none ↦ none | some s ↦ unless_done (record s { local_ended = true }) ])
    else o
advance id o (remote_end j) =
    if j == id
    then (elim o [ none ↦ none | some s ↦ unless_done (record s { remote_ended = true }) ])
    else o
advance id o (reset j) = if j == id then none else o

unfoldable pub phase : ℕ → Option StreamState → List Event → Option StreamState
phase id o [] = o
phase id o (e ∷ es) = phase id (advance id o e) es

pub state_of-delete :
    (id j : ℕ) (m : List (ℕ × StreamState))
    → state_of id (delete j m) ≡ (if j == id then none else state_of id m)
unfolding state_of delete
state_of-delete id j [] = ground arith
state_of-delete id j ((k, s) ∷ m) = ground (arith, state_of-delete id j m)

pub state_of-set_ne :
    (id j : ℕ) (s : StreamState) (m : List (ℕ × StreamState))
    → (j == id) ≡ false
    → state_of id (set_state j s m) ≡ state_of id m
unfolding state_of set_state
state_of-set_ne id j s [] h = refl
state_of-set_ne id j s ((k, t) ∷ m) h = ground (arith, state_of-set_ne id j s m h)

pub state_of-set_self :
    (id : ℕ) (s t : StreamState) (m : List (ℕ × StreamState))
    → state_of id m ≡ some t
    → state_of id (set_state id s m) ≡ some s
unfolding state_of set_state
state_of-set_self id s t [] h = cc
state_of-set_self id s t ((k, u) ∷ m) h = ground (arith, state_of-set_self id s t m)

unchanged :
    (id j : ℕ) (st : Streams)
    → state_of j st.states ≡ none
    → state_of id st.states ≡ (if j == id then none else state_of id st.states)
unchanged id j st e = elim (Bool-cases (j == id)) [
  | inl k ↦ rw k (subst (λ n. state_of n st.states ≡ none) ((==_iff j id).0 k) e)
  | inr k ↦ rw k
]

pub state_of-remove :
    (id j : ℕ) (st : Streams)
    → state_of id (remove_stream j st).states ≡ (if j == id then none else state_of id st.states)
unfolding remove_stream
state_of-remove id j st = elim (Option-cases (state_of j st.states)) [
  | inl e ↦ rw (e, remove_stream) (unchanged id j st e)
  | inr (s, e) ↦ rw (e, remove_stream) (state_of-delete id j st.states)
]

state_of-if_done :
    (id j : ℕ) (s t : StreamState) (st : Streams)
    → state_of j st.states ≡ some t
    → state_of id (remove_if_done j s st).states
      ≡ (if j == id then unless_done s else state_of id st.states)
unfolding remove_if_done unless_done
state_of-if_done id j s t st h =
    let kept : Streams = record st { states = set_state j s st.states } in
    elim (Bool-cases (j == id)) [
      | inl k ↦
          let same = (==_iff j id).0 k in
          let set = state_of-set_self j s t st.states h in
          elim (Bool-cases (s.local_ended && s.remote_ended)) [
            | inl d ↦ rw (d, k) (state_of-remove id j kept ∙ rw k)
            | inr d ↦
                rw (d, k) (subst (λ n. state_of n (set_state j s st.states) ≡ some s) same set)
          ]
      | inr k ↦
          let set = state_of-set_ne id j s st.states k in
          elim (Bool-cases (s.local_ended && s.remote_ended)) [
            | inl d ↦ rw (d, k) (state_of-remove id j kept ∙ rw (k, set))
            | inr d ↦ rw (d, k) set
          ]
    ]

-- An operation on one stream, and what it leaves of another.
on_stream :
    (id j : ℕ) (o : Option StreamState) (f : Option StreamState → Option StreamState) (st : Streams)
    (o' : Option StreamState)
    → state_of j st.states ≡ o
    → o' ≡ (if j == id then f o else state_of id st.states)
    → o' ≡ (if j == id then f (state_of id st.states) else state_of id st.states)
on_stream id j o f st st' e h = elim (Bool-cases (j == id)) [
  | inl k ↦ rw k (rw k at h ∙ ap f (sym e ∙ ap (λ n. state_of n st.states) ((==_iff j id).0 k)))
  | inr k ↦ rw k (rw k at h)
]

pub local_end_none : (j : ℕ) (st : Streams) → state_of j st.states ≡ none → note_local_end j st ≡ st
unfolding note_local_end
local_end_none j st e = rw (e, note_local_end)

pub local_end_some :
    (j : ℕ) (s : StreamState) (st : Streams)
    → state_of j st.states ≡ some s
    → note_local_end j st ≡ remove_if_done j (record s { local_ended = true }) st
unfolding note_local_end
local_end_some j s st e = rw (e, note_local_end)

pub remote_end_none :
    (j : ℕ) (st : Streams) → state_of j st.states ≡ none → note_remote_end j st ≡ st
unfolding note_remote_end
remote_end_none j st e = rw (e, note_remote_end)

pub remote_end_some :
    (j : ℕ) (s : StreamState) (st : Streams)
    → state_of j st.states ≡ some s
    → note_remote_end j st ≡ remove_if_done j (record s { remote_ended = true }) st
unfolding note_remote_end
remote_end_some j s st e = rw (e, note_remote_end)

-- What noteLocalHeaders leaves, for a new stream and for an open one.
unfoldable pub opened : ℕ → Streams → Streams
opened j st = record { states = (j, fresh) ∷ st.states; order = st.order ++ (j ∷ []) }

pub headers_none :
    (j : ℕ) (ended : Bool) (st : Streams)
    → state_of j st.states ≡ none
    → (note_local_headers j ended st).1
      ≡ (if ended then remove_if_done j first_ended (opened j st) else opened j st)
unfolding note_local_headers opened
headers_none j ended st e = rw (e, note_local_headers)

pub headers_some :
    (j : ℕ) (ended : Bool) (s : StreamState) (st : Streams)
    → state_of j st.states ≡ some s
    → (note_local_headers j ended st).1
      ≡ (if ended then remove_if_done j (record s { local_ended = true }) st else st)
unfolding note_local_headers
headers_some j ended s st e = rw (e, note_local_headers)

pub state_of-opened :
    (id j : ℕ) (st : Streams)
    → state_of id (opened j st).states ≡ (if j == id then some fresh else state_of id st.states)
unfolding opened state_of
state_of-opened id j st = refl

state_of-first_ended :
    (id j : ℕ) (st : Streams)
    → state_of id (remove_if_done j first_ended (opened j st)).states
      ≡ (if j == id then some first_ended else state_of id st.states)
unfolding unless_done
state_of-first_ended id j st =
    state_of-if_done id j first_ended fresh (opened j st)
      (state_of-opened j j st ∙ rw (==_iff j j).1 refl)
    ∙ (elim (Bool-cases (j == id)) [ inl k ↦ rw k | inr k ↦ rw k (state_of-opened id j st ∙ rw k) ])

same_state :
    (id j : ℕ) (s : StreamState) (st : Streams)
    → state_of j st.states ≡ some s
    → state_of id st.states ≡ (if j == id then some s else state_of id st.states)
same_state id j s st e = elim (Bool-cases (j == id)) [
  | inl k ↦ rw k (subst (λ n. state_of n st.states ≡ some s) ((==_iff j id).0 k) e)
  | inr k ↦ rw k
]

-- The stream that a frame is about moves by itself, all others keep their state.
module _ (id j : ℕ) (st : Streams) where
  abbrev states_at : Streams → Option StreamState
  states_at t = state_of id t.states

  state_of-local_end :
      state_of id (note_local_end j st).states ≡ advance id (state_of id st.states) (local_end j)
  unfolding advance
  state_of-local_end = elim (Option-cases (state_of j st.states)) [
    | inl e ↦
        on_stream id j none
          (λ o. elim o [ none ↦ none | some s ↦ unless_done (record s { local_ended = true }) ]) st
          _ e (ap states_at (local_end_none j st e) ∙ unchanged id j st e)
    | inr (s, e) ↦
        on_stream id j (some s)
          (λ o. elim o [ none ↦ none | some s ↦ unless_done (record s { local_ended = true }) ]) st
          _ e (ap states_at (local_end_some j s st e) ∙ state_of-if_done id j _ s st e)
  ]

  state_of-remote_end :
      state_of id (note_remote_end j st).states ≡ advance id (state_of id st.states) (remote_end j)
  unfolding advance
  state_of-remote_end = elim (Option-cases (state_of j st.states)) [
    | inl e ↦
        on_stream id j none
          (λ o. elim o [ none ↦ none | some s ↦ unless_done (record s { remote_ended = true }) ]) st
          _ e (ap states_at (remote_end_none j st e) ∙ unchanged id j st e)
    | inr (s, e) ↦
        on_stream id j (some s)
          (λ o. elim o [ none ↦ none | some s ↦ unless_done (record s { remote_ended = true }) ]) st
          _ e (ap states_at (remote_end_some j s st e) ∙ state_of-if_done id j _ s st e)
  ]

  state_of-headers :
      (ended : Bool)
      → state_of id (note_local_headers j ended st).1.states
        ≡ advance id (state_of id st.states) (headers_sent j ended)
  unfolding advance
  state_of-headers true = elim (Option-cases (state_of j st.states)) [
    | inl e ↦
        on_stream id j none
          (λ o. elim o [
            | none ↦ some first_ended
            | some s ↦ unless_done (record s { local_ended = true })
          ])
          st _ e (ap states_at (headers_none j true st e) ∙ state_of-first_ended id j st)
    | inr (s, e) ↦
        on_stream id j (some s)
          (λ o. elim o [
            | none ↦ some first_ended
            | some s ↦ unless_done (record s { local_ended = true })
          ])
          st _ e (ap states_at (headers_some j true s st e) ∙ state_of-if_done id j _ s st e)
  ]
  state_of-headers false = elim (Option-cases (state_of j st.states)) [
    | inl e ↦
        on_stream id j none (λ o. elim o [ none ↦ some fresh | some s ↦ some s ]) st _ e
          (ap states_at (headers_none j false st e) ∙ state_of-opened id j st)
    | inr (s, e) ↦
        on_stream id j (some s) (λ o. elim o [ none ↦ some fresh | some s ↦ some s ]) st _ e
          (ap states_at (headers_some j false s st e) ∙ same_state id j s st e)
  ]

state_of-step :
    (id : ℕ) (st : Streams) (e : Event)
    → state_of id (step st e).states ≡ advance id (state_of id st.states) e
unfolding step
state_of-step id st (headers_sent j ended) = state_of-headers id j st ended
state_of-step id st (local_end j) = state_of-local_end id j st
state_of-step id st (remote_end j) = state_of-remote_end id j st
state_of-step id st (reset j) = (unfold advance in state_of-remove id j st)

-- Refinement: after any sequence of events the table holds for each stream what the events of that
-- stream alone make of it.
pub state_of-run :
    (id : ℕ) (es : List Event) (st : Streams)
    → state_of id (run st es).states ≡ phase id (state_of id st.states) es
unfolding run phase
state_of-run id [] st = refl
state_of-run id (e ∷ es) st =
    state_of-run id es (step st e) ∙ ap (λ o. phase id o es) (state_of-step id st e)
