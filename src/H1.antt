-- ===== src/H1.antt =====
-- xhttp/h1_conn.go: a request over pooled HTTP/1.1 connections. A connection is what it will do: its
-- unread responses, the stale response it gives, whether it takes the request, and the response it
-- gives; `none` is a read that fails. What sync.Pool gives is a list, until it gives nothing.
pub mod Retries
mod Tests
use sing_xhttp.Common.{
  ℕ, suc, ◌-◌, Bool, true, false, not, ◌&&◌, Option, none, some, List, [], ◌∷◌, ◌==◌, ltb,
  if◌then◌else◌,
}

pub record H1Conn : Type 0 where
  pub number : ℕ
  pub unread : ℕ
  pub stale : Option ℕ
  pub takes_request : Bool
  pub response : Option ℕ

-- How sendH1Request returns.
pub data Sent : Type 0 where
  ok dial_error request_error write_error response_error : Sent
  stale_status bad_status : ℕ → Sent

-- What one turn of the loop does with its connection: it returns, after closing it or putting it
-- into the pool, or it closes it and goes on.
pub data Turn : Type 0 where
  put_back : H1Conn → Turn
  give_up : Sent → Turn
  next : Turn

-- Reading the response, with one more unread.
unfoldable pub read_response : Bool → H1Conn → Turn
read_response is_new c = elim c.response [
  | none ↦ if is_new then give_up response_error else next
  | some code ↦ if code == 200 then put_back c else give_up (bad_status code)
]

-- Writing the request. The count goes up and down again around a response that is read.
unfoldable pub write_request : Bool → H1Conn → Turn
write_request is_new c =
    if c.takes_request
    then read_response is_new c
    else (if is_new then give_up write_error else next)

-- A stale response is read first on a reused connection that has one.
unfoldable pub turn : Bool → H1Conn → Turn
turn is_new c =
    if not is_new && ltb 0 c.unread
    then elim c.stale [
      | none ↦ next
      | some code ↦
          if code == 200
          then write_request is_new (record c { unread = c.unread - 1 })
          else give_up (stale_status code)
    ]
    else write_request is_new c

-- What is left: how the call returned, the connections that it closed, and the one that it put back.
pub record Done : Type 0 where
  pub sent : Sent
  pub closed : List ℕ
  pub pooled : Option H1Conn

abbrev pub settle : H1Conn → Turn → Done → Done
settle c (put_back c') later = record { sent = ok; closed = []; pooled = some c' }
settle c (give_up e) later = record { sent = e; closed = c.number ∷ []; pooled = none }
settle c next later = record later { closed = c.number ∷ later.closed }

-- A new connection, or the error of the dial. No turn of a new connection goes on.
unfoldable pub send_fresh : Option H1Conn → Done
send_fresh none = record { sent = dial_error; closed = []; pooled = none }
send_fresh (some c) =
    settle c (turn true c) (record { sent = dial_error; closed = []; pooled = none })

-- The loop: a turn for each connection that the pool gives, then one for a new connection.
unfoldable pub send_loop : List H1Conn → Option H1Conn → Done
send_loop [] fresh = send_fresh fresh
send_loop (c ∷ cs) fresh = settle c (turn false c) (send_loop cs fresh)

-- (*h1ConnPool).sendH1Request; a request that does not serialize is not sent.
unfoldable pub send_h1_request : Bool → List H1Conn → Option H1Conn → Done
send_h1_request serializes pool fresh =
    if serializes
    then send_loop pool fresh
    else record { sent = request_error; closed = []; pooled = none }
