-- ===== src/Queue/Duplicates.antt =====
-- A packet that is uploaded twice before its turn.
use sing_xhttp.Common.{
  ℕ, suc, ◌<◌, ◌≡◌, refl, ap, sym, ◌∙◌, Bool, [], ◌∷◌, arith, length, take, drop, min, lt→ltb,
  ==_iff, some,
}
use sing_xhttp.Queue.Heap.{Packet}
use sing_xhttp.Queue.Heap
use sing_xhttp.Queue.Heap.Ties.{pop_two, push_tie}
use sing_xhttp.Queue.{UploadQueue, got, deliver, take_turn, read_from, read_loop, read, rounds}

-- With the packet whose turn it is on top, a Read hands it out.
read_turn :
    (prefer_done : ℕ → Bool) (size : ℕ) (q : UploadQueue) (p d : Packet)
    → q.heap ≡ p ∷ d ∷ []
    → p.seq ≡ q.next_seq
    → read prefer_done size q ≡ deliver q size p (d ∷ [])
unfolding read read_loop take_turn
read_turn prefer_done size q p d both turn =
    loop ∙ rw (popped, read_loop, (==_iff p.seq q.next_seq).1 turn)
  where
    loop : read prefer_done size q ≡ read_loop prefer_done size (suc (rounds q)) q
    loop = ap (read_from prefer_done size q) both

    popped : Heap.pop q.heap ≡ some (p, d ∷ [])
    popped = rw both (pop_two p d)

-- What it leaves goes behind its twin.
deliver_partial :
    (size : ℕ) (q : UploadQueue) (p d : Packet)
    → p.seq ≡ d.seq
    → size < length p.payload
    → deliver q size p (d ∷ []) ≡ (
      got (take size p.payload),
      record q { heap = d ∷ record p { payload = drop size p.payload } ∷ [] },
    )
unfolding deliver
deliver_partial size q p d same small =
    let whole : min size (length p.payload) ≡ size = omega arith in
    rw (
      whole,
      lt→ltb size (length p.payload) small,
      push_tie d (record p { payload = drop size p.payload }) same,
    )

-- With the packet whose turn it is and a duplicate of it, and nothing else, in the heap, and a
-- buffer that is shorter than the payload: the second Read hands out the front of the payload
-- again, not what follows the first.
pub twin_read_again :
    (prefer_done : ℕ → Bool) (size : ℕ) (q : UploadQueue) (p d : Packet)
    → q.heap ≡ p ∷ d ∷ []
    → p.seq ≡ q.next_seq
    → d.seq ≡ q.next_seq
    → d.payload ≡ p.payload
    → size < length p.payload
    → let first = read prefer_done size q in
      let second = read prefer_done size first.1 in
      (first.0 ≡ got (take size p.payload)) × (second.0 ≡ got (take size p.payload))
twin_read_again prefer_done size q p d both turn twin same small =
    rw (once, twice) (refl, ap (λ b. got (take size b)) same)
  where
    rest : Packet
    rest = record p { payload = drop size p.payload }

    once : read prefer_done size q ≡ (got (take size p.payload), record q { heap = d ∷ rest ∷ [] })
    once =
        read_turn prefer_done size q p d both turn
        ∙ deliver_partial size q p d (turn ∙ sym twin) small

    twice : read prefer_done size (record q { heap = d ∷ rest ∷ [] }) ≡ (
      got (take size d.payload),
      record q { heap = rest ∷ record d { payload = drop size d.payload } ∷ [] },
    )
    twice =
        read_turn prefer_done size (record q { heap = d ∷ rest ∷ [] }) d rest refl twin
        ∙ deliver_partial size (record q { heap = d ∷ rest ∷ [] }) d rest (twin ∙ sym turn)
            (rw same small)
