-- ===== src/Queue/Room.antt =====
-- A Push into an open queue that has room.
use sing_xhttp.Common.{
  if_true, if_false, ℕ, ◌<◌, ◌≡◌, refl, sym, subst, ◌∙◌, Bool, true, false, [], ◌∷◌, ◌++◌, length,
  ltb, arith,
}
use sing_xhttp.Common.Int.{pos, is_positive}
use sing_xhttp.Queue.Heap.{Packet}
use sing_xhttp.Queue.{new_upload_queue, UploadQueue, sent, push_select, push}

pub record HasRoom (q : UploadQueue) : Type 0 where
  pub open_queue : q.closed ≡ false
  pub not_done : q.done ≡ false
  pub room : length q.pushed < q.max_buffered

abbrev pub with_packet : UploadQueue → Packet → UploadQueue
with_packet q p = record q { pushed = q.pushed ++ (p ∷ []) }

pub push-HasRoom :
    (prefer : Bool) (q : UploadQueue) (p : Packet)
    → HasRoom q
    → push prefer q p ≡ sent (with_packet q p)
unfolding push push_select
push-HasRoom prefer q p h =
    if_false q.closed _ _ h.open_queue
    ∙ if_true (ltb (length q.pushed) q.max_buffered) _ _ (ground (arith, h.room))
    ∙ if_false q.done _ _ h.not_done

-- A new queue has room.
pub new-HasRoom : (n : ℕ) → 0 < n → HasRoom (new_upload_queue (pos n))
unfolding new_upload_queue
new-HasRoom n h =
    let positive : is_positive (pos n) ≡ true = ground arith in
    record {
      open_queue = refl;
      not_done = refl;
      room = subst (λ m. 0 < m) (sym (if_true (is_positive (pos n)) n 30 positive)) h;
    }
