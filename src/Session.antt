-- ===== src/Session.antt =====
-- xhttp/server.go: httpSession, whose methods run at the same time. A step is what one of them does
-- between two points where another can come in between: one stream-up upload with its body, any
-- number of packet-up uploads, the download that connects, and the Close that is not a repetition.
pub mod Bodies
mod Tests
use sing_xhttp.Common.{
  ℕ, Bool, true, false, ◌&&◌, ◌||◌, not, Option, none, some, List, [], ◌∷◌, ◌==◌, if◌then◌else◌,
}

-- Where decideStreamUp is: before uplinkOnce; the body is stored; uplinkDecided is closed; returned
-- true; closed the body and returned false; found the uplink decided and returned false.
abbrev pub before_once : ℕ
before_once = 0

abbrev pub stored : ℕ
stored = 1

abbrev pub announced : ℕ
announced = 2

abbrev pub accepted : ℕ
accepted = 3

abbrev pub refused : ℕ
refused = 4

abbrev pub lost : ℕ
lost = 5

-- Where Close is: not called; `closed` is closed; the queue is closed; returned.
abbrev pub not_called : ℕ
not_called = 0

abbrev pub signalled : ℕ
signalled = 1

abbrev pub queue_shut : ℕ
queue_shut = 2

abbrev pub returned : ℕ
returned = 3

-- httpSession: which of its channels are closed, which of its Onces are taken, whether the body is
-- stored; the two methods under way; and whether the queue and the body were closed.
pub record HttpSession : Type 0 where
  pub connected : Bool
  pub uplink_taken : Bool
  pub uplink_decided : Bool
  pub has_reader : Bool
  pub closed : Bool
  pub queue_closed : Bool
  pub body_closed : Bool
  pub upload_at : ℕ
  pub close_at : ℕ

abbrev pub new_session : HttpSession
new_session = record {
  connected = false;
  uplink_taken = false;
  uplink_decided = false;
  has_reader = false;
  closed = false;
  queue_closed = false;
  body_closed = false;
  upload_at = before_once;
  close_at = not_called;
}

pub data Event : Type 0 where
  store_body announce find_open find_closed find_decided : Event
  packet_up connect : Event
  signal_closed close_queue close_reader : Event

-- A step, `none` where the method is not at that point. A Once lets a second caller go on only when
-- the first has finished.
unfoldable pub step : HttpSession → Event → Option HttpSession
step s store_body =
    if s.upload_at == before_once && not s.uplink_taken
    then some (record s { upload_at = stored; uplink_taken = true; has_reader = true })
    else none
step s announce =
    if s.upload_at == stored
    then some (record s { upload_at = announced; uplink_decided = true })
    else none
step s find_open =
    if s.upload_at == announced && not s.closed
    then some (record s { upload_at = accepted })
    else none
step s find_closed =
    if s.upload_at == announced && s.closed
    then some (record s { upload_at = refused; body_closed = true })
    else none
step s find_decided =
    if s.upload_at == before_once && s.uplink_decided
    then some (record s { upload_at = lost })
    else none
step s packet_up =
    if not s.uplink_taken
    then some (record s { uplink_taken = true; uplink_decided = true })
    else (if s.uplink_decided then some s else none)
step s connect = some (record s { connected = true })
step s signal_closed =
    if s.close_at == not_called
    then some (record s { close_at = signalled; closed = true })
    else none
step s close_queue =
    if s.close_at == signalled
    then some (record s { close_at = queue_shut; queue_closed = true })
    else none
step s close_reader =
    if s.close_at == queue_shut
    then some (record s {
      close_at = returned;
      body_closed = s.body_closed || (s.uplink_decided && s.has_reader);
    })
    else none

-- Any interleaving; a step that is not possible is left out.
unfoldable pub step_or_stay : HttpSession → Event → HttpSession
step_or_stay s e = elim (step s e) [ none ↦ s | some s' ↦ s' ]

unfoldable pub run : HttpSession → List Event → HttpSession
run s [] = s
run s (e ∷ es) = run (step_or_stay s e) es
