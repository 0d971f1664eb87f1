-- ===== src/Batch/Tests.antt =====
-- Concrete runs of the accumulator, and its theorems at concrete inputs.
use sing_xhttp.Common.{ℕ, ◌≡◌, refl, ◌≤◌, ◌<◌, true, false, none, [], ◌∷◌, ◌++◌, length, arith}
use sing_xhttp.Common.Int.{pos}
use sing_xhttp.Common.Text.{Bytes}
use sing_xhttp.Batch.{BatchAccumulator, drained, eof, new_batch_accumulator, drain}
use sing_xhttp.Batch.Stream.{
  writes, drains, closes, step, run, run_stream, drain_chunk, drains_of, closed_flushes,
}

abbrev empty_batch : BatchAccumulator ℕ
empty_batch = record { content = []; max_batch = 2; closed = false; write_err = none }

abbrev full_batch : BatchAccumulator ℕ
full_batch = record empty_batch { content = 1 ∷ 2 ∷ 3 ∷ [] }

abbrev closed_batch : BatchAccumulator ℕ
closed_batch = record full_batch { closed = true }

new_is_empty : new_batch_accumulator {E = ℕ} (pos 2) ≡ empty_batch
unfolding new_batch_accumulator
new_is_empty = refl

two_chunks : (run full_batch (drains ∷ drains ∷ [])).1 ≡ 1 ∷ 2 ∷ 3 ∷ []
unfolding run step
two_chunks = refl

run_stream_example :
    let r = run empty_batch (writes (7 ∷ []) ∷ drains ∷ closes none ∷ []) in
    [] ++ r.0 ≡ r.1 ++ r.2.content
run_stream_example = run_stream empty_batch (writes (7 ∷ []) ∷ drains ∷ closes none ∷ [])

drain_chunk_example :
    (c : Bytes) × (rest : Bytes) × (drain full_batch
      ≡ drained c (record full_batch { content = rest }))
    × (c ++ rest ≡ full_batch.content)
    × (0 < length c)
    × (length c ≤ 2)
drain_chunk_example = drain_chunk full_batch (omega arith) (λ e. cc)

closed_flushes_example : drains_of 3 closed_batch ≡ (1 ∷ 2 ∷ 3 ∷ [], eof)
closed_flushes_example = closed_flushes closed_batch (omega arith) refl
