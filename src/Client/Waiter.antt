-- ===== src/Client/Waiter.antt =====
-- xhttp/client.go: waitReadCloser, a response body that is not there yet. Its methods run at the
-- same time; each does its work under the lock in one step, and opens `ready` in a later one.
pub mod Once
mod Tests
use sing_xhttp.Common.{
  ℕ, Bool, true, false, not, ◌||◌, ◌&&◌, Option, none, some, List, [], ◌∷◌, ◌++◌, if◌then◌else◌,
}

-- The error that is kept: one that closeWithError was given, or net.ErrClosed.
pub data WaitError : Type 0 where
  failed : ℕ → WaitError
  closed_conn : WaitError

-- The bodies, by number, that it has been given and that it has closed are kept beside the struct.
pub record Waiter : Type 0 where
  pub ready : Bool
  pub body : Option ℕ
  pub err : Option WaitError
  pub closed : Bool
  pub given : List ℕ
  pub shut : List ℕ

-- newWaitReadCloser
abbrev pub new_waiter : Waiter
new_waiter = record {
  ready = false;
  body = none;
  err = none;
  closed = false;
  given = [];
  shut = [];
}

pub data Event : Type 0 where
  set_body : ℕ → Event
  close_with_error : ℕ → Event
  close : Event
  open_ready : Event

abbrev pub is_some {ℓ} : {A : Type ℓ} → Option A → Bool
is_some none = false
is_some (some a) = true

abbrev pub held_list : Option ℕ → List ℕ
held_list none = []
held_list (some b) = b ∷ []

abbrev pub or_error : Option WaitError → WaitError → Option WaitError
or_error none e = some e
or_error (some e') e = some e'

-- One step: the locked part of `set`, closeWithError and Close, with the Close of a body that is not
-- kept, and the Once that closes `ready`.
unfoldable pub step : Waiter → Event → Waiter
step w (set_body b) =
    if w.closed || (is_some w.err || is_some w.body)
    then record w { given = b ∷ w.given; shut = b ∷ w.shut }
    else record w { given = b ∷ w.given; body = some b }
step w (close_with_error e) =
    if not w.closed && not (is_some w.err) then record w { err = some (failed e) } else w
step w close = record w {
  closed = true;
  body = none;
  err = or_error w.err closed_conn;
  shut = held_list w.body ++ w.shut;
}
step w open_ready = record w { ready = true }

unfoldable pub run : Waiter → List Event → Waiter
run w [] = w
run w (e ∷ es) = run (step w e) es

-- How a Read comes out: it waits, gives the error, ends, or reads from a body.
pub data ReadFrom : Type 0 where
  waits at_end : ReadFrom
  gives : WaitError → ReadFrom
  reads : ℕ → ReadFrom

-- (*waitReadCloser).Read
unfoldable pub read : Waiter → ReadFrom
read w =
    if not w.ready
    then waits
    else elim w.err [ some e ↦ gives e | none ↦ elim w.body [ none ↦ at_end | some b ↦ reads b ] ]
