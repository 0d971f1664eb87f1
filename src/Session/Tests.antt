-- ===== src/Session/Tests.antt =====
-- A Close that comes in between the two steps of an upload.
use sing_xhttp.Common.{◌≡◌, refl, ◌⊎◌, true, List, [], ◌∷◌}
use sing_xhttp.Session.{
  Event, store_body, announce, find_closed, signal_closed, close_queue, close_reader, run, step,
  step_or_stay, new_session, accepted, refused, returned,
}
use sing_xhttp.Session.Bodies.{run-closes}

abbrev crossed : List Event
crossed = store_body ∷ signal_closed ∷ close_queue ∷ close_reader ∷ announce ∷ find_closed ∷ []

crossed_end : (run new_session crossed).close_at ≡ returned
unfolding run step step_or_stay
crossed_end = refl

run-closes_example :
    ((run new_session crossed).queue_closed ≡ true)
    × (((run new_session crossed).upload_at ≡ accepted)
          ⊎ ((run new_session crossed).upload_at ≡ refused)
        → (run new_session crossed).body_closed ≡ true)
run-closes_example = run-closes crossed crossed_end
