-- ===== src/Client/Uploader.antt =====
-- xhttp/client.go: dialPacketUp and runPacketUploader: the numbers of the packets, the connection that
-- each is sent on, and the openUsage of the pooled connections. A pooled connection is its place; what
-- is added to openUsage is kept as two lists, of the ones taken and the ones released.
pub mod Usage
pub mod Numbers
mod Tests
use sing_xhttp.Common.{
  ℕ, suc, ◌+◌, ◌%◌, ◌^◌, Bool, true, false, ◌||◌, Option, none, some, List, [], ◌∷◌, ◌++◌, ltb,
  if◌then◌else◌,
}
use sing_xhttp.Common.Int.{ℤ, pos, negsuc, ◌-ℤ◌, leb_ℤ}
use sing_xhttp.Common.Text.{Bytes}

-- A POST: its number, its payload, and the connection that it goes over.
pub record Post : Type 0 where
  pub seq : ℕ
  pub payload : Bytes
  pub over : ℕ

pub record Uploader : Type 0 where
  pub seq : ℕ
  pub bound : ℕ
  pub posts : List Post
  pub taken : List ℕ
  pub released : List ℕ
  pub closed : Bool

-- What a turn meets: the chunk that Drain gives, the requests that the bound connection has left and
-- when it expires, the time, and the connection that Pick would give.
pub record Turn : Type 0 where
  pub chunk : Bytes
  pub left_requests : ℤ
  pub unreusable_at : Option ℕ
  pub now : ℕ
  pub picked : ℕ

-- Whether the bound connection has reached a cap.
unfoldable pub rotates : Turn → Bool
rotates t =
    leb_ℤ (t.left_requests -ℤ pos 1) (pos 0)
    || elim t.unreusable_at [ none ↦ false | some at ↦ ltb at t.now ]

-- DialContext up to the uploader: the connection that Pick gave is taken.
unfoldable pub dial : ℕ → Uploader
dial x = record { seq = 0; bound = x; posts = []; taken = x ∷ []; released = []; closed = false }

unfoldable pub rotate : Turn → Uploader → Uploader
rotate t u =
    if rotates t
    then record u { bound = t.picked; taken = t.picked ∷ u.taken; released = u.bound ∷ u.released }
    else u

-- One turn of runPacketUploader that is not cancelled: the number is taken, then the connection.
unfoldable pub send_chunk : Turn → Uploader → Uploader
send_chunk t u =
    let r = rotate t (record u { seq = (u.seq + 1) % 2 ^ 64 }) in
    record r { posts = r.posts ++ (record { seq = u.seq; payload = t.chunk; over = r.bound } ∷ []) }

unfoldable pub upload : List Turn → Uploader → Uploader
upload [] u = u
upload (t ∷ ts) u = upload ts (send_chunk t u)

-- closeAll of dialPacketUp, which holds the connection that the dial took; releaseUsage where both
-- directions share it.
unfoldable pub close_all : ℕ → Uploader → Uploader
close_all x u = if u.closed then u else record u { closed = true; released = x ∷ u.released }
