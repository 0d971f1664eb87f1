-- ===== src/Queue.antt =====
-- xhttp/upload_queue.go: the reorder queue between upload POSTs and the download's reader.
-- The `pushed` channel is a list, oldest first, with room for `max_buffered` packets. A `select`
-- whose two cases are ready is decided by the caller's scheduler.
pub mod Heap
pub mod Ledger
pub mod Delivery
pub mod Runs
pub mod Termination
pub mod Duplicates
pub mod Room
mod Tests
use sing_xhttp.Common.{
  ℕ, zero, suc, ◌+◌, ◌*◌, ◌%◌, ◌^◌, Bool, true, false, ◌&&◌, Option, none, some, List, [], ◌∷◌,
  ◌++◌, length, take, drop, ltb, ◌==◌, if◌then◌else◌, min,
}
use sing_xhttp.Common.Int.{ℤ, pos, pos_part, is_positive}
use sing_xhttp.Common.Text.{Bytes}
use Heap.{Packet, UploadHeap}
use Heap

pub record UploadQueue : Type 0 where
  pub pushed : List Packet
  pub done : Bool
  pub heap : UploadHeap
  pub next_seq : ℕ
  pub closed : Bool
  pub max_buffered : ℕ

-- newUploadQueue
pub new_upload_queue : ℤ → UploadQueue
new_upload_queue max = record {
  pushed = [];
  done = false;
  heap = [];
  next_seq = 0;
  closed = false;
  max_buffered = if is_positive max then pos_part max else 30;
}

-- How a Push stands: the packet is in the channel, the queue is closed, or the sender still waits
-- for room.
pub data PushResult : Type 0 where
  sent : UploadQueue → PushResult
  refused : PushResult
  blocked : PushResult

-- The second half of Push, a `select` of the send and `done`; it may run long after the first.
pub push_select : Bool → UploadQueue → Packet → PushResult
push_select prefer_send q p =
    if ltb (length q.pushed) q.max_buffered
    then (if q.done
        then (if prefer_send then sent (record q { pushed = q.pushed ++ (p ∷ []) }) else refused)
        else sent (record q { pushed = q.pushed ++ (p ∷ []) }))
    else (if q.done then refused else blocked)

-- (*uploadQueue).Push
pub push : Bool → UploadQueue → Packet → PushResult
unfolding push_select
push prefer_send q p = if q.closed then refused else push_select prefer_send q p

-- (*uploadQueue).Close
pub close : UploadQueue → UploadQueue
close q = if q.closed then q else record q { closed = true; done = true }

-- What a Read comes to. `waiting` is a Read parked at a `select` with neither case ready, which
-- goes on by `read_wait`; `out_of_fuel` is no outcome of the code.
pub data ReadResult : Type 0 where
  got : Bytes → ReadResult
  eof overflow waiting out_of_fuel : ReadResult

-- `select { case p = <-q.pushed: … case <-q.done: return 0, io.EOF }` at the channel's content, and
-- what Read does with the packet.
pub receive_from :
    (ℕ → Bool)
    → (UploadQueue → ReadResult × UploadQueue)
    → UploadQueue
    → List Packet
    → ReadResult × UploadQueue
receive_from prefer_done continue q [] = if q.done then (eof, q) else (waiting, q)
receive_from prefer_done continue q (p ∷ rest) =
    if q.done && prefer_done (length rest)
    then (eof, q)
    else continue (record q { pushed = rest; heap = Heap.push q.heap p })

pub receive :
    (ℕ → Bool) → (UploadQueue → ReadResult × UploadQueue) → UploadQueue → ReadResult × UploadQueue
unfolding receive_from
receive prefer_done continue q = receive_from prefer_done continue q q.pushed

-- The packet whose turn it is: its front goes to the buffer, and what does not fit goes back.
pub deliver : UploadQueue → ℕ → Packet → UploadHeap → ReadResult × UploadQueue
deliver q size p rest =
    let n = min size (length p.payload) in
    if ltb n (length p.payload)
    then (
      got (take n p.payload),
      record q { heap = Heap.push rest (record p { payload = drop n p.payload }) },
    )
    else (got (take n p.payload), record q { heap = rest; next_seq = (p.seq + 1) % 2 ^ 64 })

-- A round of Read's loop, for the packet popped and the rest of the heap.
pub take_turn :
    (ℕ → Bool)
    → ℕ
    → (UploadQueue → ReadResult × UploadQueue)
    → UploadQueue
    → Packet
    → UploadHeap
    → ReadResult × UploadQueue
unfolding deliver receive
take_turn prefer_done size continue q p rest =
    let dropped = continue (record q { heap = rest }) in
    let later = receive prefer_done continue (record q { heap = Heap.push rest p }) in
    if p.seq == q.next_seq
    then deliver q size p rest
    else (if ltb q.next_seq p.seq
        then (if ltb q.max_buffered (length rest)
            then (overflow, record q { heap = rest })
            else later)
        else dropped)

-- The loop of Read over a buffer of `size` bytes.
pub read_loop : (ℕ → Bool) → ℕ → ℕ → UploadQueue → ReadResult × UploadQueue
unfolding take_turn
read_loop prefer_done size zero q = (out_of_fuel, q)
read_loop prefer_done size (suc fuel) q = elim (Heap.pop q.heap) [
  | none ↦ (got [], q)
  | some (p, rest) ↦ take_turn prefer_done size (read_loop prefer_done size fuel) q p rest
]

-- Every round takes a packet from the channel, or drops one of the heap.
abbrev pub rounds : UploadQueue → ℕ
rounds q = 2 * length q.pushed + length q.heap

-- A Read that is parked at a `select`, and goes on.
pub read_wait : (ℕ → Bool) → ℕ → UploadQueue → ReadResult × UploadQueue
unfolding receive read_loop
read_wait prefer_done size q =
    receive prefer_done (λ r. read_loop prefer_done size (suc (rounds q)) r) q

-- Read's first test, of the heap.
pub read_from : (ℕ → Bool) → ℕ → UploadQueue → UploadHeap → ReadResult × UploadQueue
unfolding read_wait read_loop
read_from prefer_done size q [] = read_wait prefer_done size q
read_from prefer_done size q (p ∷ ps) = read_loop prefer_done size (suc (rounds q)) q

-- (*uploadQueue).Read
pub read : (ℕ → Bool) → ℕ → UploadQueue → ReadResult × UploadQueue
unfolding read_from
read prefer_done size q = read_from prefer_done size q q.heap
