-- ===== src/Batch.antt =====
-- xhttp/batch.go: the write buffer between the upper layer and the packet uploader.
-- Every method runs under the mutex, so a method is one step; a method that would wait on the
-- condition variable says so, and runs again from its loop test when it is woken.
pub mod Stream
mod Tests
use sing_xhttp.Common.{
  ℕ, ◌≤◌, Bool, true, false, not, ◌&&◌, Option, none, some, List, [], ◌++◌, length, take, drop, ltb,
  leb, ◌==◌, if◌then◌else◌,
}
use sing_xhttp.Common.Int.{ℤ, pos, pos_part, ltb_ℤ}
use sing_xhttp.Common.Text.{Bytes}

-- The errors that a Write returns: io.ErrClosedPipe, or the one that the accumulator was closed
-- with.
pub data WriteError (E : Type 0) : Type 0 where
  closed_pipe : WriteError E
  given : E → WriteError E

pub record BatchAccumulator (E : Type 0) : Type 0 where
  pub content : Bytes
  pub max_batch : ℕ
  pub closed : Bool
  pub write_err : Option E

pub data WriteResult (E : Type 0) : Type 0 where
  written : ℕ → BatchAccumulator E → WriteResult E
  failed : WriteError E → WriteResult E
  write_waits : WriteResult E

pub data DrainResult (E : Type 0) : Type 0 where
  drained : Bytes → BatchAccumulator E → DrainResult E
  eof : DrainResult E
  drain_waits : DrainResult E

module _ {E : Type 0} where
  -- newBatchAccumulator
  pub new_batch_accumulator : ℤ → BatchAccumulator E
  new_batch_accumulator max = record {
    content = [];
    max_batch = if ltb_ℤ max (pos 1) then 1 else pos_part max;
    closed = false;
    write_err = none;
  }

  -- The error of a Write after the close.
  pub write_error : Option E → WriteError E
  write_error none = closed_pipe
  write_error (some e) = given e

  -- (*batchAccumulator).Write
  pub write : BatchAccumulator E → Bytes → WriteResult E
  unfolding write_error
  write b p =
      if leb b.max_batch (length b.content) && not b.closed
      then write_waits
      else (if b.closed
          then failed (write_error b.write_err)
          else written (length p) (record b { content = b.content ++ p }))

  -- The size of the chunk that a Drain takes.
  pub chunk_size : BatchAccumulator E → ℕ
  chunk_size b = let n = length b.content in if ltb b.max_batch n then b.max_batch else n

  -- (*batchAccumulator).Drain
  pub drain : BatchAccumulator E → DrainResult E
  unfolding chunk_size
  drain b =
      if length b.content == 0 && not b.closed
      then drain_waits
      else (if length b.content == 0
          then eof
          else drained (take (chunk_size b) b.content)
              (record b { content = drop (chunk_size b) b.content }))

  -- (*batchAccumulator).CloseWithError
  pub close_with_error : BatchAccumulator E → Option E → BatchAccumulator E
  close_with_error b err = if b.closed then b else record b { closed = true; write_err = err }

  -- (*batchAccumulator).Close
  pub close : BatchAccumulator E → BatchAccumulator E
  unfolding close_with_error
  close b = close_with_error b none
