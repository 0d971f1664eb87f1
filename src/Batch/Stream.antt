-- ===== src/Batch/Stream.antt =====
-- The accumulator as a byte stream: what goes in comes out, in order, in bounded chunks.
use sing_xhttp.Common.{
  ℕ, zero, suc, ◌+◌, ◌≤◌, ◌<◌, ◌≡◌, ap, sym, ◌∙◌, ◌≢◌, ◌↔◌, if◌then◌else◌, inl, inr, true, false,
  Option, List, [], ◌∷◌, ◌++◌, length, take, drop, length-append, length-take, replicate,
  length-pos, length-zero, List-cases, take-append-drop, append-nil, append_assoc, arith,
}
use sing_xhttp.Common.Int.{ℤ}
use sing_xhttp.Common.Text.{Bytes}
use sing_xhttp.Batch.{
  BatchAccumulator, WriteResult, written, failed, write_waits, DrainResult, drained, eof,
  drain_waits, new_batch_accumulator, write_error, write, chunk_size, drain, close_with_error,
}

-- The two ends' calls, in the order in which they take the mutex.
pub data Call (E : Type 0) : Type 0 where
  writes : Bytes → Call E
  drains : Call E
  closes : Option E → Call E

length_parts : {xs : Bytes} (ys zs : Bytes) → ys ++ zs ≡ xs → length ys + length zs ≡ length xs
length_parts ys zs e = sym (length-append ys zs) ∙ ap length e

module _ {E : Type 0} where
  -- The bytes that a call takes in, those that it gives out, and the state after it.
  pub after_write : BatchAccumulator E → Bytes → WriteResult E → Bytes × Bytes × BatchAccumulator E
  after_write b p (written n b') = (p, [], b')
  after_write b p (failed e) = ([], [], b)
  after_write b p write_waits = ([], [], b)

  pub after_drain : BatchAccumulator E → DrainResult E → Bytes × Bytes × BatchAccumulator E
  after_drain b (drained c b') = ([], c, b')
  after_drain b eof = ([], [], b)
  after_drain b drain_waits = ([], [], b)

  unfoldable pub step : BatchAccumulator E → Call E → Bytes × Bytes × BatchAccumulator E
  unfolding after_write after_drain write drain close_with_error
  step b (writes p) = after_write b p (write b p)
  step b drains = after_drain b (drain b)
  step b (closes err) = ([], [], close_with_error b err)

  unfoldable pub run : BatchAccumulator E → List (Call E) → Bytes × Bytes × BatchAccumulator E
  run b [] = ([], [], b)
  run b (c ∷ cs) =
      let (taken, out, b') = step b c in
      let (taken', out', b'') = run b' cs in (taken ++ taken', out ++ out', b'')

  abbrev pub IsWf : BatchAccumulator E → Type 0
  IsWf b = 0 < b.max_batch

  step_stream :
      (b : BatchAccumulator E) (c : Call E)
      → let r = step b c in b.content ++ r.0 ≡ r.1 ++ r.2.content
  unfolding step
  step_stream b (writes p) = ground (arith, append-nil b.content)
  step_stream b drains =
      ground (arith, append-nil b.content, take-append-drop (chunk_size b) b.content)
  step_stream b (closes err) = rw append-nil (ground arith)

  -- Whatever the two ends do, and in whatever order: the bytes at hand and those that the writes
  -- took are, in order, those that the drains gave and those still at hand.
  pub run_stream :
      (b : BatchAccumulator E) (cs : List (Call E))
      → let r = run b cs in b.content ++ r.0 ≡ r.1 ++ r.2.content
  unfolding run
  run_stream b [] = append-nil b.content
  run_stream b (c ∷ cs) =
      let (taken, out, b') = step b c in
      let (taken', out', b'') = run b' cs in
      sym (append_assoc b.content taken taken')
      ∙ ap (λ s. s ++ taken') (step_stream b c)
      ∙ append_assoc out b'.content taken'
      ∙ ap (◌++◌ out) (run_stream b' cs)
      ∙ sym (append_assoc out out' b''.content)

  -- A chunk is the front of the content, not empty and at most `max_batch` long; the rest stays,
  -- and so does all else. Nothing waits or ends while there is content.
  pub drain_chunk :
      (b : BatchAccumulator E)
      → IsWf b
      → b.content ≢ []
      → (c : Bytes) × (rest : Bytes) × (drain b ≡ drained c (record b { content = rest }))
        × (c ++ rest ≡ b.content)
        × (0 < length c)
        × (length c ≤ b.max_batch)
  unfolding drain
  drain_chunk b w more = (
    take (chunk_size b) b.content,
    drop (chunk_size b) b.content,
    ground (arith, length-pos b.content),
    take-append-drop (chunk_size b) b.content,
    ground (arith, length-pos b.content, length-take (chunk_size b) b.content),
    ground (arith, length-take (chunk_size b) b.content),
  )

  -- With no content a Drain waits if the accumulator is open, and ends if it is closed.
  pub drain_empty :
      (b : BatchAccumulator E) → b.content ≡ [] → drain b ≡ (if b.closed then eof else drain_waits)
  unfolding drain
  drain_empty b e = ground arith

  -- A Write waits exactly when the content fills a batch and the accumulator is open.
  write_waits_iff :
      (b : BatchAccumulator E) (p : Bytes)
      → (write b p ≡ write_waits) ↔ ((b.max_batch ≤ length b.content) × (b.closed ≡ false))
  unfolding write
  write_waits_iff b p = (λ e. ground arith, λ h. ground arith)

  -- The chunks of `n` Drains in a row, and what the next one comes to.
  pub drains_of : ℕ → BatchAccumulator E → Bytes × DrainResult E
  drains_of n b = let r = run b (replicate n drains) in (r.1, drain r.2)

  run_after :
      (b : BatchAccumulator E) (c : Call E) (cs : List (Call E)) {taken out : Bytes}
      {b' : BatchAccumulator E}
      → step b c ≡ (taken, out, b')
      → run b (c ∷ cs) ≡ (taken ++ (run b' cs).0, out ++ (run b' cs).1, (run b' cs).2)
  unfolding run
  run_after b c cs e = ap (λ r. (r.0 ++ (run r.2 cs).0, r.1 ++ (run r.2 cs).1, (run r.2 cs).2)) e

  run_closed :
      (n : ℕ) (b : BatchAccumulator E)
      → IsWf b
      → b.closed ≡ true
      → length b.content ≤ n
      → ((run b (replicate n drains)).1 ≡ b.content)
        × ((run b (replicate n drains)).2.content ≡ [])
        × ((run b (replicate n drains)).2.closed ≡ true)
  run_closed zero b w shut few =
      let empty = length-zero b.content few in unfold run in (sym empty, empty, shut)
  run_closed (suc n) b w shut few = elim (List-cases b.content) [
    | inl empty ↦
        let stops : drain b ≡ eof = drain_empty b empty ∙ rw shut in
        let ended : step b drains ≡ ([], [], b) = unfold step in ap (after_drain b) stops in
        rw (run_after b drains (replicate n drains) ended)
          (run_closed n b w shut (rw empty (omega arith)))
    | inr more ↦
        let (c, rest, e, parts, filled, _) = drain_chunk b w more in
        let taken : step b drains ≡ ([], c, record b { content = rest }) =
          unfold step in ap (after_drain b) e in
        let (all, done, still) =
          run_closed n (record b { content = rest }) w shut
            (omega (arith, length_parts c rest parts, filled)) in
        rw (run_after b drains (replicate n drains) taken) (ap (◌++◌ c) all ∙ parts, done, still)
  ]

  -- After the close, as many Drains as there are bytes hand out all that is left, in order, and
  -- the next one ends the stream.
  pub closed_flushes :
      (b : BatchAccumulator E)
      → IsWf b
      → b.closed ≡ true
      → drains_of (length b.content) b ≡ (b.content, eof)
  unfolding drains_of drain
  closed_flushes b w shut =
      let (all, none_left, still) = run_closed (length b.content) b w shut (omega arith) in
      ground (arith, all, none_left, still)

  -- The two ends never wait for each other.
  never_both_wait :
      (b : BatchAccumulator E) (p : Bytes)
      → IsWf b
      → ¬ ((write b p ≡ write_waits) × (drain b ≡ drain_waits))
  unfolding write drain
  never_both_wait b p w h = ground arith

  -- After a close every Write fails with the error of the first close, and a later close changes
  -- nothing.
  close_first :
      (b : BatchAccumulator E) (first second : Option E) (p : Bytes)
      → b.closed ≡ false
      → let b' = close_with_error (close_with_error b first) second in
        (write b' p ≡ failed (write_error first)) × (b'.content ≡ b.content)
  unfolding write close_with_error
  close_first b first second p open_ = ground arith

pub new_batch_accumulator-IsWf : (E : Type 0) (max : ℤ) → IsWf (new_batch_accumulator {E = E} max)
unfolding new_batch_accumulator
new_batch_accumulator-IsWf E max = ground arith
