-- ===== src/Queue/Runs.antt =====
-- Whole histories of the reorder queue: uploads, reads and a close in any order.
use mathlib.Core.List.{Mem, Nodup-nil, Nodup-cons, perm_middle, mem-cons, not-mem-nil, mem-map}
use mathlib.Core.List.Perm
use mathlib.Core.Logic.{∥∥₁_elim}
use mathlib.Core.Logic.Or
use native.Mathlib.Nat.{ℕ_set}
use sing_xhttp.Common.{
  ℕ, suc, ◌+◌, ◌^◌, ◌<◌, ◌≡◌, refl, ap, subst, inl, inr, Bool, List, [], ◌∷◌, ◌++◌, map, append-nil,
  append_assoc, arith, drop, length, drop-append_length,
}
use sing_xhttp.Common.Int.{ℤ}
use sing_xhttp.Common.Text.{Bytes}
use sing_xhttp.Queue.Heap.{Packet}
use sing_xhttp.Queue.Ledger.{stream, Fits, Fits-prop, Ledger, Ledger-perm, seq_of}
use sing_xhttp.Queue.Delivery.{bytes_of, held, InOrder, read-InOrder, read_wait-InOrder}
use sing_xhttp.Queue.{
  UploadQueue, PushResult, sent, refused, blocked, push_select, push, close, read, read_wait,
  new_upload_queue,
}

-- One step of a history. `delayed` is the second half of a Push whose first half ran before, and
-- `resumes` a Read that goes on after a wait.
pub data Call : Type 0 where
  pushes delayed : Bool → Packet → Call
  reads resumes : (ℕ → Bool) → ℕ → Call
  closes : Call

-- A packet that is refused or waits leaves the queue as it is.
abbrev pub after_push : UploadQueue → PushResult → UploadQueue
after_push q (sent q') = q'
after_push q refused = q
after_push q blocked = q

-- The bytes that a step hands to the reader, and the queue after it.
unfoldable pub step : UploadQueue → Call → Bytes × UploadQueue
unfolding push push_select close read read_wait
step q (pushes prefer_send p) = ([], after_push q (push prefer_send q p))
step q (delayed prefer_send p) = ([], after_push q (push_select prefer_send q p))
step q (reads prefer_done size) = let r = read prefer_done size q in (bytes_of r.0, r.1)
step q (resumes prefer_done size) = let r = read_wait prefer_done size q in (bytes_of r.0, r.1)
step q closes = ([], close q)

unfoldable pub run : UploadQueue → List Call → Bytes × UploadQueue
unfolding step
run q [] = ([], q)
run q (c ∷ cs) = let (front, q') = step q c in let (back, r) = run q' cs in (front ++ back, r)

module _ (payload_of : ℕ → Bytes) where
  -- What the sender keeps to: a packet holds the payload of its number, and no packet of that
  -- number is still in the queue.
  abbrev pub IsFresh : UploadQueue → Packet → Type 0
  IsFresh q p =
      (p.payload ≡ payload_of p.seq) × (p.seq + 1 < 2 ^ 64) × (¬ Mem p.seq (map seq_of (held q)))

  abbrev pub IsLegal : UploadQueue → Call → Type 0
  IsLegal q (pushes _ p) = IsFresh q p
  IsLegal q (delayed _ p) = IsFresh q p
  IsLegal q (reads _ _) = Unit {0}
  IsLegal q (resumes _ _) = Unit {0}
  IsLegal q closes = Unit {0}

  abbrev pub AreLegal : UploadQueue → List Call → Type 0
  AreLegal q [] = Unit {0}
  AreLegal q (c ∷ cs) = IsLegal q c × AreLegal (step q c).1 cs

  Ledger-add :
      {out : Bytes} {next : ℕ} {p : Packet} {ps : List Packet}
      → p.payload ≡ payload_of p.seq
      → p.seq + 1 < 2 ^ 64
      → ¬ Mem p.seq (map seq_of ps)
      → Ledger payload_of out next ps
      → Ledger payload_of out next (p ∷ ps)
  Ledger-add {out} {next} {p} {ps} whole small fresh l = record {
    consumed = l.consumed;
    total = l.total;
    fits =
        λ r m. Or.elim (Fits-prop payload_of next l.consumed r) (mem-cons.0 m) (new r) (l.fits r);
    distinct = Nodup-cons.1 (fresh, l.distinct);
    held = elim l.held [ inl e ↦ inl e | inr m ↦ inr (mem-cons.1 (Or.inr m)) ];
  }
    where
      turn : p.seq ≡ next → l.consumed ++ p.payload ≡ payload_of next
      turn e = elim l.held [
        | inl none_yet ↦ rw (none_yet, whole, e)
        | inr m ↦ absurd (fresh (rw e m))
      ]

      new : (r : Packet) → r ≡ p → Fits payload_of next l.consumed r
      new r e = rw e (turn, (λ _. whole), small)

  add-InOrder :
      {out : Bytes} (q : UploadQueue) (p : Packet)
      → IsFresh q p
      → InOrder payload_of out q
      → InOrder payload_of out (record q { pushed = q.pushed ++ (p ∷ []) })
  add-InOrder {out} q p f l =
      Ledger-perm payload_of {ps = p ∷ held q}
        (Perm.symm (rw (append-nil, append_assoc) at (perm_middle {a = p} (held q) [])))
        (Ledger-add f.0 f.1 f.2 l)

  push_select-InOrder :
      (prefer_send : Bool) {out : Bytes} (q : UploadQueue) (p : Packet)
      → IsFresh q p
      → InOrder payload_of out q
      → InOrder payload_of out (after_push q (push_select prefer_send q p))
  unfolding push_select
  push_select-InOrder prefer_send q p f l = let added = add-InOrder q p f l in ground (arith, added)

  push-InOrder :
      (prefer_send : Bool) {out : Bytes} (q : UploadQueue) (p : Packet)
      → IsFresh q p
      → InOrder payload_of out q
      → InOrder payload_of out (after_push q (push prefer_send q p))
  unfolding push
  push-InOrder prefer_send q p f l =
      let selected = push_select-InOrder prefer_send q p f l in ground (arith, selected)

  close-InOrder :
      {out : Bytes} (q : UploadQueue) → InOrder payload_of out q → InOrder payload_of out (close q)
  unfolding close
  close-InOrder q l = ground arith

  step-InOrder :
      (c : Call) {out : Bytes} (q : UploadQueue)
      → IsLegal q c
      → InOrder payload_of out q
      → InOrder payload_of (out ++ (step q c).0) (step q c).1
  unfolding step
  step-InOrder (pushes prefer_send p) q f l = rw append-nil (push-InOrder prefer_send q p f l)
  step-InOrder (delayed prefer_send p) q f l =
      rw append-nil (push_select-InOrder prefer_send q p f l)
  step-InOrder (reads prefer_done size) {out} q f l =
      read-InOrder payload_of prefer_done size out q l
  step-InOrder (resumes prefer_done size) {out} q f l =
      read_wait-InOrder payload_of prefer_done size out q l
  step-InOrder closes q f l = rw append-nil (close-InOrder q l)

  run-InOrder :
      (cs : List Call) {out : Bytes} (q : UploadQueue)
      → AreLegal q cs
      → InOrder payload_of out q
      → InOrder payload_of (out ++ (run q cs).0) (run q cs).1
  unfolding run
  run-InOrder [] q f l = rw append-nil l
  run-InOrder (c ∷ cs) {out} q f l =
      subst (λ o. InOrder payload_of o (run (step q c).1 cs).1)
        (append_assoc out (step q c).0 (run (step q c).1 cs).0)
        (run-InOrder cs (step q c).1 f.1 (step-InOrder c q f.0 l))

  new_upload_queue-InOrder : (max : ℤ) → InOrder payload_of [] (new_upload_queue max)
  unfolding new_upload_queue
  new_upload_queue-InOrder max = record {
    consumed = [];
    total = refl;
    fits = λ p m. absurd (not-mem-nil m);
    distinct = Nodup-nil;
    held = inl refl;
  }

  Bytes-set : IsSet Bytes
  Bytes-set = hlevel ℕ_set

  Ledger-prefix :
      {out : Bytes} {next : ℕ} {ps : List Packet}
      → Ledger payload_of out next ps
      → (n : ℕ) × (rest : Bytes) × (out ++ rest ≡ stream payload_of n)
  Ledger-prefix {out} {next} {ps} l = elim l.held [
    | inl e ↦ (next, [], rw (append-nil, l.total, e, append-nil))
    | inr m ↦ (suc next, drop (length l.consumed) (payload_of next), rest_of m)
  ]
    where
      split : (p : Packet) → Mem p ps → seq_of p ≡ next → l.consumed ++ p.payload ≡ payload_of next
      split p k e = (l.fits p k).0 e

      rest_of :
          Mem next (map seq_of ps)
          → out ++ drop (length l.consumed) (payload_of next) ≡ stream payload_of (suc next)
      rest_of m = ∥∥₁_elim (mem-map.0 m) (Bytes-set _ _) λ (p, k, e).
          rw (l.total, append_assoc, ← split p k e)
            (ap (λ b. stream payload_of next ++ (l.consumed ++ b))
              (drop-append_length l.consumed p.payload))

  -- From an empty queue, whatever is pushed, read and closed in whatever order: if no packet is
  -- pushed while the queue holds one of its number, the bytes that the reader has got are the
  -- front of the sender's stream.
  pub run_prefix :
      (max : ℤ) (cs : List Call)
      → AreLegal (new_upload_queue max) cs
      → (n : ℕ) × (rest : Bytes) × ((run (new_upload_queue max) cs).0 ++ rest ≡ stream payload_of n)
  run_prefix max cs f = Ledger-prefix (run-InOrder cs _ f (new_upload_queue-InOrder max))
