-- ===== src/Queue/Heap/Ties.antt =====
-- Two packets of one number in the heap.
use sing_xhttp.Common.{◌≡◌, refl, some, [], ◌∷◌, arith}
use sing_xhttp.Queue.Heap.{Packet, less, swap, up, down, push, split_last, pop}

-- heap.Pop takes the first of two, whatever their numbers.
pub pop_two : (p d : Packet) → pop (p ∷ d ∷ []) ≡ some (p, d ∷ [])
unfolding pop swap down split_last less
pop_two p d = refl

-- heap.Push leaves a packet behind one of the same number.
pub push_tie : (d p : Packet) → p.seq ≡ d.seq → push (d ∷ []) p ≡ d ∷ p ∷ []
unfolding push up less swap
push_tie d p e = ground arith
