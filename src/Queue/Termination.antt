-- ===== src/Queue/Termination.antt =====
-- A Read ends: its loop has rounds enough.
use sing_xhttp.Common.{
  ℕ, zero, suc, ◌+◌, ◌*◌, ◌<◌, ◌≡◌, ◌≢◌, inl, inr, Bool, ◌&&◌, List, [], ◌∷◌, arith, length, ltb,
  ◌==◌, Bool-cases, Option-cases,
}
use sing_xhttp.Queue.Heap.{Packet, UploadHeap}
use sing_xhttp.Queue.Heap
use sing_xhttp.Queue.Heap.Permutes.{length-push, length-pop}
use sing_xhttp.Queue.{
  UploadQueue, ReadResult, out_of_fuel, receive, receive_from, deliver, take_turn, read_from,
  read_loop, read_wait, read, rounds,
}

abbrev Ends : ReadResult × UploadQueue → Type 0
Ends r = r.0 ≢ out_of_fuel

deliver-Ends :
    (size : ℕ) (q : UploadQueue) (p : Packet) (rest : UploadHeap) → Ends (deliver q size p rest)
unfolding deliver
deliver-Ends size q p rest e = ground arith

-- What comes next has fewer rounds to go.
receive_from-Ends :
    (prefer_done : ℕ → Bool) (next : UploadQueue → ReadResult × UploadQueue) (q : UploadQueue)
    (ps : List Packet)
    → ((r : UploadQueue) → rounds r < 2 * length ps + length q.heap → Ends (next r))
    → Ends (receive_from prefer_done next q ps)
unfolding receive_from
receive_from-Ends prefer_done next q [] step = λ e. ground arith
receive_from-Ends prefer_done next q (p ∷ rest) step =
    let smaller =
      step (record q { pushed = rest; heap = Heap.push q.heap p })
        (omega (arith, length-push q.heap p)) in
    elim (Bool-cases (q.done && prefer_done (length rest))) [
      | inl d ↦ rw d (λ e. cc)
      | inr d ↦ rw d smaller
    ]

receive-Ends :
    (prefer_done : ℕ → Bool) (next : UploadQueue → ReadResult × UploadQueue) (q : UploadQueue)
    → ((r : UploadQueue) → rounds r < rounds q → Ends (next r))
    → Ends (receive prefer_done next q)
unfolding receive
receive-Ends prefer_done next q step = receive_from-Ends prefer_done next q q.pushed step

take_turn-Ends :
    (prefer_done : ℕ → Bool) (size : ℕ) (next : UploadQueue → ReadResult × UploadQueue)
    (q : UploadQueue) (p : Packet) (rest : UploadHeap)
    → length q.heap ≡ suc (length rest)
    → ((r : UploadQueue) → rounds r < rounds q → Ends (next r))
    → Ends (take_turn prefer_done size next q p rest)
unfolding take_turn
take_turn-Ends prefer_done size next q p rest shorter step =
    elim (Bool-cases (p.seq == q.next_seq)) [
      | inl turn ↦ rw turn (deliver-Ends size q p rest)
      | inr miss ↦ elim (Bool-cases (ltb q.next_seq p.seq)) [
        | inr old ↦ rw (miss, old) (step (record q { heap = rest }) (omega arith))
        | inl gap ↦ elim (Bool-cases (ltb q.max_buffered (length rest))) [
          | inl over ↦ rw (miss, gap, over) (λ e. cc)
          | inr room ↦
              rw (miss, gap, room)
                (receive-Ends prefer_done next (record q { heap = Heap.push rest p })
                  (λ r h. step r (omega (arith, length-push rest p))))
        ]
      ]
    ]

read_loop-Ends :
    (prefer_done : ℕ → Bool) (size fuel : ℕ) (q : UploadQueue)
    → rounds q < fuel
    → Ends (read_loop prefer_done size fuel q)
unfolding read_loop
read_loop-Ends prefer_done size zero q h = absurd (omega arith)
read_loop-Ends prefer_done size (suc fuel) q h = elim (Option-cases (Heap.pop q.heap)) [
  | inl e ↦ rw (e, read_loop) (λ k. cc)
  | inr ((p, rest), e) ↦
      rw (e, read_loop)
        (take_turn-Ends prefer_done size (read_loop prefer_done size fuel) q p rest
          (length-pop q.heap p rest e)
          (λ r less. read_loop-Ends prefer_done size fuel r (omega arith)))
]

-- A Read comes to a result of the code, whatever the queue holds and however its `select`s go: its
-- loop never runs out of rounds. So does one that goes on after a wait.
pub read_ends :
    (prefer_done : ℕ → Bool) (size : ℕ) (q : UploadQueue)
    → ((read prefer_done size q).0 ≢ out_of_fuel) × ((read_wait prefer_done size q).0 ≢ out_of_fuel)
unfolding read read_wait
read_ends prefer_done size q = (go q.heap, wait)
  where
    wait : Ends (read_wait prefer_done size q)
    wait =
        receive-Ends prefer_done (λ r. read_loop prefer_done size (suc (rounds q)) r) q
          (λ r less. read_loop-Ends prefer_done size (suc (rounds q)) r (omega arith))

    go : (h : UploadHeap) → Ends (read_from prefer_done size q h)
    go [] = wait
    go (p ∷ ps) = read_loop-Ends prefer_done size (suc (rounds q)) q (omega arith)
