-- ===== src/Queue/Delivery.antt =====
-- Reads of the reorder queue, against the sender's numbered payloads.
use mathlib.Core.List.{Perm, mem-cons_self, perm_middle}
use mathlib.Core.List.Perm
use sing_xhttp.Common.{
  ℕ, zero, suc, ◌+◌, ◌%◌, ◌^◌, ◌≡◌, refl, subst, ◌≢◌, inl, inr, Bool, List, [], ◌∷◌, ◌++◌,
  append-nil, arith, take, drop, take_all, length, min, ltb, ◌==◌, ◌&&◌, ==_iff, Bool-cases,
  Option-cases,
}
use sing_xhttp.Common.Text.{Bytes}
use sing_xhttp.Queue.Heap.{Packet, UploadHeap}
use sing_xhttp.Queue.Heap
use sing_xhttp.Queue.Heap.Permutes.{push-perm, pop-perm}
use sing_xhttp.Queue.Ledger.{Ledger, Ledger-take, Ledger-finish, Ledger-perm, Ledger-drop}
use sing_xhttp.Queue.{
  take_turn, read_from, UploadQueue, ReadResult, got, receive, receive_from, deliver, read_loop,
  read_wait, read, rounds,
}

-- The bytes that a Read hands out.
abbrev pub bytes_of : ReadResult → Bytes
bytes_of (got b) = b
bytes_of _ = []

-- All packets that the queue holds.
abbrev pub held : UploadQueue → List Packet
held q = q.heap ++ q.pushed

module _ (payload_of : ℕ → Bytes) where
  -- The queue continues the stream of which `out` has been read.
  abbrev pub InOrder : Bytes → UploadQueue → Type 0
  InOrder out q = Ledger payload_of out q.next_seq (held q)

  -- What a Read came to keeps the account, with its bytes added.
  abbrev Keeps : Bytes → ReadResult × UploadQueue → Type 0
  Keeps out r = InOrder (out ++ bytes_of r.0) r.1

  move_front :
      (h : UploadHeap) (p : Packet) (rest : List Packet)
      → Perm (h ++ (p ∷ rest)) (Heap.push h p ++ rest)
  move_front h p rest = Perm.trans (perm_middle h rest) (Perm.append_right rest (push-perm h p))

  InOrder-receive :
      {out : Bytes} (q : UploadQueue) (p : Packet) (rest : List Packet)
      → q.pushed ≡ p ∷ rest
      → InOrder out q
      → InOrder out (record q { pushed = rest; heap = Heap.push q.heap p })
  InOrder-receive {out} q p rest e l =
      Ledger-perm payload_of (move_front q.heap p rest)
        (subst (λ ps. Ledger payload_of out q.next_seq (q.heap ++ ps)) e l)

  receive_from-Keeps :
      (prefer_done : ℕ → Bool) (next : UploadQueue → ReadResult × UploadQueue) (out : Bytes)
      (q : UploadQueue) (ps : List Packet)
      → q.pushed ≡ ps
      → ((r : UploadQueue) → InOrder out r → Keeps out (next r))
      → InOrder out q
      → Keeps out (receive_from prefer_done next q ps)
  unfolding receive_from
  receive_from-Keeps prefer_done next out q [] e step l = elim (Bool-cases q.done) [
    | inl d ↦ rw (d, append-nil) l
    | inr d ↦ rw (d, append-nil) l
  ]
  receive_from-Keeps prefer_done next out q (p ∷ rest) e step l =
      elim (Bool-cases (q.done && prefer_done (length rest))) [
        | inl d ↦ rw (d, append-nil) l
        | inr d ↦ rw d (step _ (InOrder-receive q p rest e l))
      ]

  deliver-Keeps :
      (size : ℕ) (out : Bytes) (q : UploadQueue) (p : Packet) (rest : UploadHeap)
      → p.seq ≡ q.next_seq
      → Ledger payload_of out q.next_seq (p ∷ (rest ++ q.pushed))
      → Keeps out (deliver q size p rest)
  unfolding deliver
  deliver-Keeps size out q p rest e l =
      let n = min size (length p.payload) in
      let back = record p { payload = drop n p.payload } in
      elim (Bool-cases (ltb n (length p.payload))) [
        | inl d ↦ rw d (
            Ledger-perm payload_of (Perm.append_right q.pushed (push-perm rest back))
              (Ledger-take payload_of n e l))
        | inr d ↦
            let full : take n p.payload ≡ p.payload = take_all n p.payload (ground arith) in
            let step : (p.seq + 1) % 2 ^ 64 ≡ suc q.next_seq =
              ground (arith, (l.fits p mem-cons_self).2) in
            rw (d, full, step) (Ledger-finish payload_of e l)
      ]

  receive-Keeps :
      (prefer_done : ℕ → Bool) (next : UploadQueue → ReadResult × UploadQueue) (out : Bytes)
      (q : UploadQueue)
      → ((r : UploadQueue) → InOrder out r → Keeps out (next r))
      → InOrder out q
      → Keeps out (receive prefer_done next q)
  unfolding receive
  receive-Keeps prefer_done next out q step l =
      receive_from-Keeps prefer_done next out q q.pushed refl step l

  take_turn-Keeps :
      (prefer_done : ℕ → Bool) (size : ℕ) (next : UploadQueue → ReadResult × UploadQueue)
      (out : Bytes) (q : UploadQueue) (p : Packet) (rest : UploadHeap)
      → ((r : UploadQueue) → InOrder out r → Keeps out (next r))
      → Ledger payload_of out q.next_seq (p ∷ (rest ++ q.pushed))
      → Keeps out (take_turn prefer_done size next q p rest)
  unfolding take_turn
  take_turn-Keeps prefer_done size next out q p rest step l =
      elim (Bool-cases (p.seq == q.next_seq)) [
        | inl turn ↦ rw turn (deliver-Keeps size out q p rest ((==_iff _ _).0 turn) l)
        | inr miss ↦
            let other : p.seq ≢ q.next_seq = ground (arith, miss) in
            elim (Bool-cases (ltb q.next_seq p.seq)) [
              | inr old ↦ rw (miss, old) (step _ (Ledger-drop payload_of other l))
              | inl gap ↦ elim (Bool-cases (ltb q.max_buffered (length rest))) [
                | inl over ↦ rw (miss, gap, over, append-nil) (Ledger-drop payload_of other l)
                | inr room ↦
                    rw (miss, gap, room)
                      (receive-Keeps prefer_done next out _ step
                        (Ledger-perm payload_of (Perm.append_right q.pushed (push-perm rest p)) l))
              ]
            ]
      ]

  read_loop-Keeps :
      (prefer_done : ℕ → Bool) (size fuel : ℕ) (out : Bytes) (q : UploadQueue)
      → InOrder out q
      → Keeps out (read_loop prefer_done size fuel q)
  unfolding read_loop
  read_loop-Keeps prefer_done size zero out q l = rw append-nil l
  read_loop-Keeps prefer_done size (suc fuel) out q l = elim (Option-cases (Heap.pop q.heap)) [
    | inl e ↦ rw (e, read_loop, append-nil) l
    | inr ((p, rest), e) ↦
        rw (e, read_loop)
          (take_turn-Keeps prefer_done size (read_loop prefer_done size fuel) out q p rest
            (read_loop-Keeps prefer_done size fuel out)
            (Ledger-perm payload_of (Perm.append_right q.pushed (pop-perm q.heap p rest e)) l))
  ]

  -- A Read, and one that goes on after a wait, keep the account with their bytes added.
  pub read_wait-InOrder :
      (prefer_done : ℕ → Bool) (size : ℕ) (out : Bytes) (q : UploadQueue)
      → InOrder out q
      → InOrder (out ++ bytes_of (read_wait prefer_done size q).0) (read_wait prefer_done size q).1
  unfolding read_wait
  read_wait-InOrder prefer_done size out q l =
      receive-Keeps prefer_done (λ r. read_loop prefer_done size (suc (rounds q)) r) out q
        (read_loop-Keeps prefer_done size (suc (rounds q)) out) l

  pub read-InOrder :
      (prefer_done : ℕ → Bool) (size : ℕ) (out : Bytes) (q : UploadQueue)
      → InOrder out q
      → InOrder (out ++ bytes_of (read prefer_done size q).0) (read prefer_done size q).1
  unfolding read
  read-InOrder prefer_done size out q l = go q.heap
    where
      go : (h : UploadHeap) → Keeps out (read_from prefer_done size q h)
      go [] = read_wait-InOrder prefer_done size out q l
      go (p ∷ ps) = read_loop-Keeps prefer_done size (suc (rounds q)) out q l
