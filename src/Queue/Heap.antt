-- ===== src/Queue/Heap.antt =====
-- xhttp/upload_queue.go: `packet`, `uploadHeap`, and the algorithm of Go's container/heap on it.
-- A slice is a list; element 0 is its head.
pub mod Permutes
pub mod Ties
use sing_xhttp.Common.{
  ℕ, zero, suc, ◌+◌, ◌-◌, ◌*◌, ◌/◌, Bool, true, false, ◌||◌, ◌&&◌, not, Option, none, some, List,
  [], ◌∷◌, ◌++◌, length, get_elem?, set, ltb, leb, ◌==◌, if◌then◌else◌,
}
use sing_xhttp.Common.Text.{Bytes}

pub record Packet : Type 0 where
  pub payload : Bytes
  pub seq : ℕ

abbrev pub UploadHeap : Type 0
UploadHeap = List Packet

-- `h[i].seq < h[j].seq`; the callers keep both indices in range.
pub less : UploadHeap → ℕ → ℕ → Bool
less h i j = elim (get_elem? h i) [
  | none ↦ false
  | some p ↦ elim (get_elem? h j) [ none ↦ false | some r ↦ ltb p.seq r.seq ]
]

pub swap : UploadHeap → ℕ → ℕ → UploadHeap
swap h i j = elim (get_elem? h i) [
  | none ↦ h
  | some p ↦ elim (get_elem? h j) [ none ↦ h | some r ↦ set (set h i r) j p ]
]

-- heap.up: the index falls in every round, so as many rounds as the index are enough.
pub up : ℕ → UploadHeap → ℕ → UploadHeap
unfolding less swap
up zero h j = h
up (suc fuel) h j =
    let i = (j - 1) / 2 in
    let rest = up fuel (swap h i j) i in if i == j || not (less h j i) then h else rest

-- The child that heap.down compares with its parent.
pub smaller_child : UploadHeap → ℕ → ℕ → ℕ
unfolding less
smaller_child h n j1 = if ltb (j1 + 1) n && less h (j1 + 1) j1 then j1 + 1 else j1

-- heap.down: the index grows in every round and stays below `n`.
pub down : ℕ → UploadHeap → ℕ → ℕ → UploadHeap
unfolding smaller_child swap
down zero h i n = h
down (suc fuel) h i n =
    let j = smaller_child h n (2 * i + 1) in
    let rest = down fuel (swap h i j) j n in
    if leb n (2 * i + 1) || not (less h j i) then h else rest

-- heap.Push: append, then sift the new last element up.
unfoldable pub push : UploadHeap → Packet → UploadHeap
unfolding up swap less
push h p = up (length h) (h ++ (p ∷ [])) (length h)

-- uploadHeap.Pop: the last element and the elements before it.
pub split_last : UploadHeap → Option (Packet × UploadHeap)
split_last [] = none
split_last (p ∷ ps) = elim (split_last ps) [
  | none ↦ some (p, [])
  | some (r, front) ↦ some (r, p ∷ front)
]

-- heap.Pop: exchange the ends, sift the new first element down, take the last.
unfoldable pub pop : UploadHeap → Option (Packet × UploadHeap)
unfolding split_last down smaller_child swap less
pop h = let n = length h - 1 in split_last (down (length h) (swap h 0 n) 0 n)
