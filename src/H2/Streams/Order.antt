-- ===== src/H2/Streams/Order.antt =====
-- The order lists each open stream once, and the parent of a new stream is one of them.
use sing_xhttp.Common.{
  ℕ, ◌≡◌, refl, ◌≢◌, ◌⊎◌, inl, inr, sym, ◌∙◌, ap, subst, Bool, true, false, ◌&&◌, ◌||◌, Option,
  none, some, List, [], ◌∷◌, ◌++◌, ◌==◌, ==_iff, if◌then◌else◌, arith, Bool-cases, Option-cases,
}
use sing_xhttp.H2.Streams.{
  Streams, StreamState, state_of, set_state, delete, cut, remove_stream, remove_if_done,
  note_local_end, note_remote_end, note_local_headers, last_other, parent_stream, fresh,
  first_ended,
}
use sing_xhttp.H2.Streams.Open.{
  Event, headers_sent, local_end, remote_end, reset, step, run, opened, state_of-delete,
  state_of-set_ne, state_of-set_self, local_end_none, local_end_some, remote_end_none,
  remote_end_some, headers_none, headers_some, state_of-opened,
}

-- The id stands in the list.
unfoldable pub listed : ℕ → List ℕ → Bool
listed id [] = false
listed id (j ∷ js) = j == id || listed id js

-- No id stands in the list twice.
abbrev pub Distinct : List ℕ → Type 0
Distinct [] = Unit {0}
Distinct (j ∷ js) = (listed j js ≡ false) × Distinct js

abbrev pub is_open : Option StreamState → Bool
is_open none = false
is_open (some _) = true

pub record InStep (st : Streams) : Type 0 where
  pub distinct : Distinct st.order
  pub same : (id : ℕ) → listed id st.order ≡ is_open (state_of id st.states)

listed-cut :
    (id j : ℕ) (js : List ℕ)
    → Distinct js
    → listed id (cut j js) ≡ (if j == id then false else listed id js)
unfolding listed cut
listed-cut id j [] h = ground arith
listed-cut id j (k ∷ ks) h = ground (arith, listed-cut id j ks h.1)

Distinct-cut : (j : ℕ) (js : List ℕ) → Distinct js → Distinct (cut j js)
unfolding listed cut
Distinct-cut j [] h = tt
Distinct-cut j (k ∷ ks) h = elim (Bool-cases (k == j)) [
  | inl e ↦ rw e h.1
  | inr e ↦ rw e (listed-cut k j ks h.1 ∙ ground (arith, h.0), Distinct-cut j ks h.1)
]

listed-append :
    (id j : ℕ) (js : List ℕ) → listed id (js ++ (j ∷ [])) ≡ (if j == id then true else listed id js)
unfolding listed
listed-append id j [] = ground arith
listed-append id j (k ∷ ks) = ground (arith, listed-append id j ks)

Distinct-append :
    (j : ℕ) (js : List ℕ) → listed j js ≡ false → Distinct js → Distinct (js ++ (j ∷ []))
unfolding listed
Distinct-append j [] e h = (refl, tt)
Distinct-append j (k ∷ ks) e h =
    (ground (arith, listed-append k j ks, h.0), Distinct-append j ks (ground arith) h.1)

is_open-if :
    (b : Bool) (o p : Option StreamState)
    → is_open (if b then o else p) ≡ (if b then is_open o else is_open p)
is_open-if true o p = refl
is_open-if false o p = refl

remove_some :
    (j : ℕ) (s : StreamState) (st : Streams)
    → state_of j st.states ≡ some s
    → remove_stream j st ≡ record { states = delete j st.states; order = cut j st.order }
unfolding remove_stream
remove_some j s st e = rw (e, remove_stream)

remove_none : (j : ℕ) (st : Streams) → state_of j st.states ≡ none → remove_stream j st ≡ st
unfolding remove_stream
remove_none j st e = rw (e, remove_stream)

InStep-cut :
    (j : ℕ) (st : Streams)
    → InStep st
    → InStep (record { states = delete j st.states; order = cut j st.order })
InStep-cut j st h = record {
  distinct = Distinct-cut j st.order h.distinct;
  same = λ id.
      listed-cut id j st.order h.distinct
      ∙ ap (λ b. if j == id then false else b) (h.same id)
      ∙ sym (is_open-if (j == id) none (state_of id st.states))
      ∙ ap is_open (sym (state_of-delete id j st.states));
}

InStep-remove : (j : ℕ) (st : Streams) → InStep st → InStep (remove_stream j st)
InStep-remove j st h = elim (Option-cases (state_of j st.states)) [
  | inl e ↦ subst InStep (sym (remove_none j st e)) h
  | inr (s, e) ↦ subst InStep (sym (remove_some j s st e)) (InStep-cut j st h)
]

is_open-set :
    (id j : ℕ) (s t : StreamState) (st : Streams)
    → state_of j st.states ≡ some t
    → is_open (state_of id (set_state j s st.states)) ≡ is_open (state_of id st.states)
is_open-set id j s t st e = elim (Bool-cases (j == id)) [
  | inl k ↦
      let same = (==_iff j id).0 k in
      subst (λ n. is_open (state_of n (set_state j s st.states)) ≡ is_open (state_of n st.states))
        same (ap is_open (state_of-set_self j s t st.states e) ∙ sym (ap is_open e))
  | inr k ↦ ap is_open (state_of-set_ne id j s st.states k)
]

InStep-if_done :
    (j : ℕ) (s t : StreamState) (st : Streams)
    → state_of j st.states ≡ some t
    → InStep st
    → InStep (remove_if_done j s st)
unfolding remove_if_done
InStep-if_done j s t st e h =
    let kept : Streams = record st { states = set_state j s st.states } in
    let kept-InStep : InStep kept = record {
      distinct = h.distinct;
      same = λ id. h.same id ∙ sym (is_open-set id j s t st e);
    } in
    elim (Bool-cases (s.local_ended && s.remote_ended)) [
      | inl d ↦ rw d (InStep-remove j kept kept-InStep)
      | inr d ↦ rw d kept-InStep
    ]

InStep-opened :
    (j : ℕ) (st : Streams) → state_of j st.states ≡ none → InStep st → InStep (opened j st)
unfolding opened
InStep-opened j st e h = record {
  distinct = Distinct-append j st.order (h.same j ∙ ap is_open e) h.distinct;
  same = λ id.
      listed-append id j st.order
      ∙ ap (λ b. if j == id then true else b) (h.same id)
      ∙ sym (is_open-if (j == id) (some fresh) (state_of id st.states))
      ∙ ap is_open (sym (state_of-opened id j st));
}

-- What an ended half leaves, for an unknown stream and for an open one.
either_kept :
    {t u v : Streams} (b : Bool) → t ≡ (if b then u else v) → InStep u → InStep v → InStep t
either_kept true e h k = subst InStep (sym e) h
either_kept false e h k = subst InStep (sym e) k

InStep-headers :
    (j : ℕ) (ended : Bool) (st : Streams) → InStep st → InStep (note_local_headers j ended st).1
InStep-headers j ended st h = elim (Option-cases (state_of j st.states)) [
  | inl e ↦
      let new = InStep-opened j st e h in
      let found = state_of-opened j j st ∙ rw (==_iff j j).1 refl in
      either_kept ended (headers_none j ended st e)
        (InStep-if_done j first_ended fresh (opened j st) found new) new
  | inr (s, e) ↦ either_kept ended (headers_some j ended s st e) (InStep-if_done j _ s st e h) h
]

InStep-local_end : (j : ℕ) (st : Streams) → InStep st → InStep (note_local_end j st)
InStep-local_end j st h = elim (Option-cases (state_of j st.states)) [
  | inl e ↦ subst InStep (sym (local_end_none j st e)) h
  | inr (s, e) ↦ subst InStep (sym (local_end_some j s st e)) (InStep-if_done j _ s st e h)
]

InStep-remote_end : (j : ℕ) (st : Streams) → InStep st → InStep (note_remote_end j st)
InStep-remote_end j st h = elim (Option-cases (state_of j st.states)) [
  | inl e ↦ subst InStep (sym (remote_end_none j st e)) h
  | inr (s, e) ↦ subst InStep (sym (remote_end_some j s st e)) (InStep-if_done j _ s st e h)
]

InStep-step : (st : Streams) (e : Event) → InStep st → InStep (step st e)
unfolding step
InStep-step st (headers_sent j ended) h = InStep-headers j ended st h
InStep-step st (local_end j) h = InStep-local_end j st h
InStep-step st (remote_end j) h = InStep-remote_end j st h
InStep-step st (reset j) h = InStep-remove j st h

abbrev pub no_streams : Streams
no_streams = record { states = []; order = [] }

no_streams-InStep : InStep no_streams
unfolding listed state_of
no_streams-InStep = record { distinct = tt; same = λ id. refl }

InStep-run : (es : List Event) (st : Streams) → InStep st → InStep (run st es)
unfolding run
InStep-run [] st h = h
InStep-run (e ∷ es) st h = InStep-run es (step st e) (InStep-step st e h)

-- After any sequence of events the order holds exactly the open streams, each of them once.
pub run-InStep : (es : List Event) → InStep (run no_streams es)
run-InStep es = InStep-run es no_streams no_streams-InStep

-- The last entry other than the id, with what stands behind it.
LastOther : ℕ → List ℕ → Option ℕ → Type 0
LastOther id js none = (k : ℕ) → k ≢ id → listed k js ≡ false
LastOther id js (some k) = (k ≢ id) × (listed k js ≡ true)

last_other-LastOther : (id : ℕ) (js : List ℕ) → LastOther id js (last_other id js)
unfolding last_other listed LastOther
last_other-LastOther id [] = λ k h. refl
last_other-LastOther id (j ∷ js) = elim (Option-cases (last_other id js)) [
  | inl e ↦ elim (Bool-cases (j == id)) [
    | inl k ↦
        let ih = rw e at (last_other-LastOther id js) in rw (e, k) (λ n h. ground (arith, ih n h))
    | inr k ↦ rw (e, k) ((λ same. ground (arith, same)), ground arith)
  ]
  | inr (n, e) ↦ let ih = rw e at (last_other-LastOther id js) in rw e (ih.0, ground (arith, ih.1))
]

not_open : (o : Option StreamState) → is_open o ≡ false → o ≡ none
not_open none h = refl
not_open (some s) h = cc

parent_of :
    (id : ℕ) (st : Streams)
    → InStep st
    → ((parent_stream id st ≢ id) × (is_open (state_of (parent_stream id st) st.states) ≡ true))
      ⊎ ((parent_stream id st ≡ 0) × ((k : ℕ) → k ≢ id → state_of k st.states ≡ none))
unfolding parent_stream LastOther
parent_of id st h = elim (Option-cases (last_other id st.order)) [
  | inl e ↦
      let others = rw e at (last_other-LastOther id st.order) in
      inr (rw (e, parent_stream), λ k ne. not_open _ (sym (h.same k) ∙ others k ne))
  | inr (n, e) ↦
      let last = rw e at (last_other-LastOther id st.order) in
      let p : parent_stream id st ≡ n = rw (e, parent_stream) in
      inl (
        (λ q. last.0 (sym p ∙ q)),
        ap (λ m. is_open (state_of m st.states)) p ∙ sym (h.same n) ∙ last.1,
      )
]

-- Whatever happened before, the parent that is given to a stream is another stream that is open, or
-- 0 if no other is open.
pub parent_stream-open :
    (es : List Event) (id : ℕ)
    → let st = run no_streams es in
      ((parent_stream id st ≢ id) × (is_open (state_of (parent_stream id st) st.states) ≡ true))
      ⊎ ((parent_stream id st ≡ 0) × ((k : ℕ) → k ≢ id → state_of k st.states ≡ none))
parent_stream-open es id = parent_of id (run no_streams es) (run-InStep es)
