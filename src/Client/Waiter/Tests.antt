-- ===== src/Client/Waiter/Tests.antt =====
-- A waiter that is closed before its body arrives.
use sing_xhttp.Common.{◌≡◌, refl, true, [], ◌∷◌, List}
use sing_xhttp.Client.Waiter.{Event, set_body, close, open_ready, is_some, new_waiter, step, run}
use sing_xhttp.Client.Waiter.Once.{count, bodies_closed_once}

abbrev late : List Event
late = close ∷ set_body 4 ∷ open_ready ∷ close ∷ []

late_closed : (run new_waiter late).closed ≡ true
unfolding run step
late_closed = refl

bodies_closed_once_example :
    (count 4 (run new_waiter late).shut ≡ count 4 (run new_waiter late).given)
    × (is_some (run new_waiter late).err ≡ true)
bodies_closed_once_example = bodies_closed_once late 4 late_closed
