-- ===== src/Session/Bodies.antt =====
-- No upload body is left open by a session that was closed, in whatever order the steps come.
use sing_xhttp.Common.{
  ◌≡◌, refl, ◌⊎◌, inl, inr, Bool, true, false, ◌&&◌, ◌||◌, not, none, some, List, [], ◌∷◌, ◌==◌,
  if◌then◌else◌, arith,
}
use sing_xhttp.Session.{
  HttpSession, Event, store_body, announce, find_open, find_closed, find_decided, packet_up,
  connect, signal_closed, close_queue, close_reader, step, step_or_stay, run, new_session,
  before_once, stored, announced, accepted, refused, lost, not_called, signalled, queue_shut,
  returned,
}

-- What holds between any two steps.
pub record IsOrderly (s : HttpSession) : Type 0 where
  pub signals : s.close_at ≡ not_called ⊎ s.closed ≡ true
  pub keeps : s.upload_at ≡ stored → s.has_reader ≡ true
  pub tells :
      (s.upload_at ≡ announced) ⊎ (s.upload_at ≡ accepted)
      → (s.has_reader ≡ true) × (s.uplink_decided ≡ true)
  pub gives_up : s.upload_at ≡ refused → s.body_closed ≡ true
  pub shuts : s.upload_at ≡ accepted → s.close_at ≡ returned → s.body_closed ≡ true
  pub queue_goes : (s.close_at ≡ queue_shut) ⊎ (s.close_at ≡ returned) → s.queue_closed ≡ true

-- A step behind a guard.
guarded :
    (b : Bool) (s s' : HttpSession)
    → IsOrderly s
    → (b ≡ true → IsOrderly s')
    → IsOrderly (elim (if b then some s' else none) [ none ↦ s | some t ↦ t ])
guarded true s s' h k = k refl
guarded false s s' h k = h

either_way :
    (taken decided : Bool) (s s' : HttpSession)
    → IsOrderly s
    → IsOrderly s'
    → IsOrderly (elim (if not taken then some s' else (if decided then some s else none)) [
      | none ↦ s
      | some t ↦ t
    ])
either_way false decided s s' h k = k
either_way true true s s' h k = h
either_way true false s s' h k = h

step-IsOrderly : (s : HttpSession) (e : Event) → IsOrderly s → IsOrderly (step_or_stay s e)
unfolding step step_or_stay
step-IsOrderly s store_body h =
    guarded (s.upload_at == before_once && not s.uplink_taken) s
      (record s { upload_at = stored; uplink_taken = true; has_reader = true }) h
      (λ g. record {
        signals = ground (arith, g, h.signals, h.keeps, h.tells, h.gives_up, h.shuts, h.queue_goes);
        keeps = ground (arith, g, h.signals, h.keeps, h.tells, h.gives_up, h.shuts, h.queue_goes);
        tells = ground (arith, g, h.signals, h.keeps, h.tells, h.gives_up, h.shuts, h.queue_goes);
        gives_up =
            ground (arith, g, h.signals, h.keeps, h.tells, h.gives_up, h.shuts, h.queue_goes);
        shuts = ground (arith, g, h.signals, h.keeps, h.tells, h.gives_up, h.shuts, h.queue_goes);
        queue_goes =
            ground (arith, g, h.signals, h.keeps, h.tells, h.gives_up, h.shuts, h.queue_goes);
      })
step-IsOrderly s announce h =
    guarded (s.upload_at == stored) s (record s { upload_at = announced; uplink_decided = true }) h
      (λ g. record {
        signals = ground (arith, g, h.signals, h.keeps, h.tells, h.gives_up, h.shuts, h.queue_goes);
        keeps = ground (arith, g, h.signals, h.keeps, h.tells, h.gives_up, h.shuts, h.queue_goes);
        tells = ground (arith, g, h.signals, h.keeps, h.tells, h.gives_up, h.shuts, h.queue_goes);
        gives_up =
            ground (arith, g, h.signals, h.keeps, h.tells, h.gives_up, h.shuts, h.queue_goes);
        shuts = ground (arith, g, h.signals, h.keeps, h.tells, h.gives_up, h.shuts, h.queue_goes);
        queue_goes =
            ground (arith, g, h.signals, h.keeps, h.tells, h.gives_up, h.shuts, h.queue_goes);
      })
step-IsOrderly s find_open h =
    guarded (s.upload_at == announced && not s.closed) s (record s { upload_at = accepted }) h
      (λ g. record {
        signals = ground (arith, g, h.signals, h.keeps, h.tells, h.gives_up, h.shuts, h.queue_goes);
        keeps = ground (arith, g, h.signals, h.keeps, h.tells, h.gives_up, h.shuts, h.queue_goes);
        tells = ground (arith, g, h.signals, h.keeps, h.tells, h.gives_up, h.shuts, h.queue_goes);
        gives_up =
            ground (arith, g, h.signals, h.keeps, h.tells, h.gives_up, h.shuts, h.queue_goes);
        shuts = ground (arith, g, h.signals, h.keeps, h.tells, h.gives_up, h.shuts, h.queue_goes);
        queue_goes =
            ground (arith, g, h.signals, h.keeps, h.tells, h.gives_up, h.shuts, h.queue_goes);
      })
step-IsOrderly s find_closed h =
    guarded (s.upload_at == announced && s.closed) s
      (record s { upload_at = refused; body_closed = true }) h
      (λ g. record {
        signals = ground (arith, g, h.signals, h.keeps, h.tells, h.gives_up, h.shuts, h.queue_goes);
        keeps = ground (arith, g, h.signals, h.keeps, h.tells, h.gives_up, h.shuts, h.queue_goes);
        tells = ground (arith, g, h.signals, h.keeps, h.tells, h.gives_up, h.shuts, h.queue_goes);
        gives_up =
            ground (arith, g, h.signals, h.keeps, h.tells, h.gives_up, h.shuts, h.queue_goes);
        shuts = ground (arith, g, h.signals, h.keeps, h.tells, h.gives_up, h.shuts, h.queue_goes);
        queue_goes =
            ground (arith, g, h.signals, h.keeps, h.tells, h.gives_up, h.shuts, h.queue_goes);
      })
step-IsOrderly s find_decided h =
    guarded (s.upload_at == before_once && s.uplink_decided) s (record s { upload_at = lost }) h
      (λ g. record {
        signals = ground (arith, g, h.signals, h.keeps, h.tells, h.gives_up, h.shuts, h.queue_goes);
        keeps = ground (arith, g, h.signals, h.keeps, h.tells, h.gives_up, h.shuts, h.queue_goes);
        tells = ground (arith, g, h.signals, h.keeps, h.tells, h.gives_up, h.shuts, h.queue_goes);
        gives_up =
            ground (arith, g, h.signals, h.keeps, h.tells, h.gives_up, h.shuts, h.queue_goes);
        shuts = ground (arith, g, h.signals, h.keeps, h.tells, h.gives_up, h.shuts, h.queue_goes);
        queue_goes =
            ground (arith, g, h.signals, h.keeps, h.tells, h.gives_up, h.shuts, h.queue_goes);
      })
step-IsOrderly s signal_closed h =
    guarded (s.close_at == not_called) s (record s { close_at = signalled; closed = true }) h
      (λ g. record {
        signals = ground (arith, g, h.signals, h.keeps, h.tells, h.gives_up, h.shuts, h.queue_goes);
        keeps = ground (arith, g, h.signals, h.keeps, h.tells, h.gives_up, h.shuts, h.queue_goes);
        tells = ground (arith, g, h.signals, h.keeps, h.tells, h.gives_up, h.shuts, h.queue_goes);
        gives_up =
            ground (arith, g, h.signals, h.keeps, h.tells, h.gives_up, h.shuts, h.queue_goes);
        shuts = ground (arith, g, h.signals, h.keeps, h.tells, h.gives_up, h.shuts, h.queue_goes);
        queue_goes =
            ground (arith, g, h.signals, h.keeps, h.tells, h.gives_up, h.shuts, h.queue_goes);
      })
step-IsOrderly s close_queue h =
    guarded (s.close_at == signalled) s (record s { close_at = queue_shut; queue_closed = true }) h
      (λ g. record {
        signals = ground (arith, g, h.signals, h.keeps, h.tells, h.gives_up, h.shuts, h.queue_goes);
        keeps = ground (arith, g, h.signals, h.keeps, h.tells, h.gives_up, h.shuts, h.queue_goes);
        tells = ground (arith, g, h.signals, h.keeps, h.tells, h.gives_up, h.shuts, h.queue_goes);
        gives_up =
            ground (arith, g, h.signals, h.keeps, h.tells, h.gives_up, h.shuts, h.queue_goes);
        shuts = ground (arith, g, h.signals, h.keeps, h.tells, h.gives_up, h.shuts, h.queue_goes);
        queue_goes =
            ground (arith, g, h.signals, h.keeps, h.tells, h.gives_up, h.shuts, h.queue_goes);
      })
step-IsOrderly s close_reader h =
    guarded (s.close_at == queue_shut) s
      (record s {
        close_at = returned;
        body_closed = s.body_closed || (s.uplink_decided && s.has_reader);
      })
      h
      (λ g. record {
        signals = ground (arith, g, h.signals, h.keeps, h.tells, h.gives_up, h.shuts, h.queue_goes);
        keeps = ground (arith, g, h.signals, h.keeps, h.tells, h.gives_up, h.shuts, h.queue_goes);
        tells = ground (arith, g, h.signals, h.keeps, h.tells, h.gives_up, h.shuts, h.queue_goes);
        gives_up =
            ground (arith, g, h.signals, h.keeps, h.tells, h.gives_up, h.shuts, h.queue_goes);
        shuts = ground (arith, g, h.signals, h.keeps, h.tells, h.gives_up, h.shuts, h.queue_goes);
        queue_goes =
            ground (arith, g, h.signals, h.keeps, h.tells, h.gives_up, h.shuts, h.queue_goes);
      })
step-IsOrderly s connect h = record {
  signals = h.signals;
  keeps = h.keeps;
  tells = h.tells;
  gives_up = h.gives_up;
  shuts = h.shuts;
  queue_goes = h.queue_goes;
}
step-IsOrderly s packet_up h =
    either_way s.uplink_taken s.uplink_decided s
      (record s { uplink_taken = true; uplink_decided = true }) h
      record {
        signals = h.signals;
        keeps = h.keeps;
        tells = λ at_. ((h.tells at_).0, refl);
        gives_up = h.gives_up;
        shuts = h.shuts;
        queue_goes = h.queue_goes;
      }

run-IsOrderly : (es : List Event) (s : HttpSession) → IsOrderly s → IsOrderly (run s es)
unfolding run
run-IsOrderly [] s h = h
run-IsOrderly (e ∷ es) s h = run-IsOrderly es (step_or_stay s e) (step-IsOrderly s e h)

new_session-IsOrderly : IsOrderly new_session
new_session-IsOrderly = record {
  signals = inl refl;
  keeps = λ e. ground arith;
  tells = λ e. ground arith;
  gives_up = λ e. ground arith;
  shuts = λ e k. ground arith;
  queue_goes = λ e. ground arith;
}

-- However the steps of an upload, of other uploads, of the download and of a Close come in between
-- each other: once the Close has returned, the queue is closed, and so is the body of a stream-up
-- upload that was taken, also of one that was told it may go on.
pub run-closes :
    (es : List Event)
    → let s = run new_session es in
      s.close_at ≡ returned
      → (s.queue_closed ≡ true)
        × ((s.upload_at ≡ accepted) ⊎ (s.upload_at ≡ refused) → s.body_closed ≡ true)
run-closes es done =
    let h = run-IsOrderly es new_session new_session-IsOrderly in
    (h.queue_goes (inr done), λ at_. elim at_ [ inl e ↦ h.shuts e done | inr e ↦ h.gives_up e ])
