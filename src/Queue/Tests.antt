-- ===== src/Queue/Tests.antt =====
-- Concrete runs of the reorder queue, and its theorems at concrete inputs.
use mathlib.Core.List.{not-mem-nil, mem-cons}
use mathlib.Core.Logic.Or
use mathlib.Core.HLevel.{⊥_prop}
use sing_xhttp.Common.{ℕ, zero, suc, ◌≡◌, refl, ◌≢◌, Bool, true, false, List, [], ◌∷◌, ◌++◌, arith}
use sing_xhttp.Common.Int.{pos}
use sing_xhttp.Common.Text.{Bytes}
use sing_xhttp.Queue.Heap.{Packet, UploadHeap}
use sing_xhttp.Queue.Heap
use sing_xhttp.Queue.Ledger.{stream}
use sing_xhttp.Queue.{
  UploadQueue, got, out_of_fuel, push, take_turn, read_loop, read_wait, read, new_upload_queue,
}
use sing_xhttp.Queue.Runs.{Call, pushes, reads, run, step, AreLegal, run_prefix}
use sing_xhttp.Queue.Termination.{read_ends}
use sing_xhttp.Queue.Duplicates.{twin_read_again}

abbrev payloads : ℕ → Bytes
payloads zero = 10 ∷ 11 ∷ 12 ∷ []
payloads (suc n) = 20 ∷ []

abbrev packet : ℕ → Packet
packet n = record { payload = payloads n; seq = n }

abbrev never : ℕ → Bool
never n = false

abbrev late_first : List Call
late_first = pushes true (packet 1) ∷ pushes true (packet 0) ∷ reads never 2 ∷ reads never 9 ∷ []

-- Packet 1 comes first, and packet 0 is read before it, in two pieces.
late_first-run : (run (new_upload_queue (pos 0)) late_first).0 ≡ 10 ∷ 11 ∷ 12 ∷ []
unfolding run step push new_upload_queue read take_turn read_loop Heap.push Heap.pop
late_first-run = refl

late_first_legal : AreLegal payloads (new_upload_queue (pos 0)) late_first
unfolding run step push new_upload_queue
late_first_legal = (
  (refl, omega arith, not-mem-nil),
  (
    (refl, omega arith, λ m. Or.elim ⊥_prop (mem-cons.0 m) (λ e. absurd (omega arith)) not-mem-nil),
    (tt, (tt, tt)),
  ),
)

run_prefix_example :
    (n : ℕ) × (rest : Bytes) × ((run (new_upload_queue (pos 0)) late_first).0 ++ rest
      ≡ stream payloads n)
run_prefix_example = run_prefix payloads (pos 0) late_first late_first_legal

read_ends_example :
    ((read never 4 (new_upload_queue (pos 0))).0 ≢ out_of_fuel)
    × ((read_wait never 4 (new_upload_queue (pos 0))).0 ≢ out_of_fuel)
read_ends_example = read_ends never 4 (new_upload_queue (pos 0))

abbrev twins : UploadQueue
twins = record {
  pushed = [];
  done = false;
  heap = packet 0 ∷ packet 0 ∷ [];
  next_seq = 0;
  closed = false;
  max_buffered = 30;
}

twin_read_again_example :
    ((read never 2 twins).0 ≡ got (10 ∷ 11 ∷ []))
    × ((read never 2 (read never 2 twins).1).0 ≡ got (10 ∷ 11 ∷ []))
twin_read_again_example =
    twin_read_again never 2 twins (packet 0) (packet 0) refl refl refl refl (omega arith)
