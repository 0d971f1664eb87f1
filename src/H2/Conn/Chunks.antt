-- ===== src/H2/Conn/Chunks.antt =====
-- The bytes of a client in one write, or in two.
use sing_xhttp.Common.{
  ℕ, suc, ◌+◌, ◌<◌, ◌≡◌, refl, ap, sym, ◌∙◌, subst, true, false, [], ◌++◌, append_assoc, append-nil,
  length, length-append, arith,
}
use sing_xhttp.Common.Text.{Bytes}
use sing_xhttp.H2.HeaderBlock.{Hpack}
use sing_xhttp.H2.Conn.{
  ChromeH2Conn, Turn, stopped, failed, next, WriteResult, written, write_error, write_loop, write,
}
use sing_xhttp.H2.Conn.Loop.{after, Ended, loop_fuel, loop-more, loop-prefixed, loop-Ended}
use sing_xhttp.H2.Conn.Rounds.{more}
use sing_xhttp.H2.Conn.Progress.{prefixed}

module _ {D E : Type 0} (hpack : Hpack D E) where
  abbrev pub Written : Type 0
  Written = ChromeH2Conn D E × Bytes × WriteResult

  -- The same, by what a write of the second one gives.
  unfoldable joined : Bytes → ℕ → Written → Written
  joined o n (c, out, written m) = (c, o ++ out, written (n + m))
  joined o n (c, out, write_error) = (c, [], write_error)

  -- One write of both parts, by what a write of the first one gives.
  unfoldable then_write : Bytes → Written → Written
  then_write q (c, out, written n) = joined out n (write hpack false c q)
  then_write q (c, out, write_error) = (more hpack c q, [], write_error)

  settle : ℕ → Turn D E → Written
  settle n (stopped c out) = (c, out, written n)
  settle n (failed c) = (record c { broken = true }, [], write_error)
  settle n (next c out) = (record c { broken = true }, [], write_error)

  write_settles :
      (c : ChromeH2Conn D E) (p : Bytes) (f : ℕ)
      → c.broken ≡ false
      → length c.write_buf + length p < f
      → write hpack false c p ≡ settle (length p) (write_loop hpack f (more hpack c p) [])
  write_settles c p f e h =
      let short = suc (length (c.write_buf ++ p)) in
      let same : write hpack false c p
          ≡ settle (length p) (write_loop hpack short (more hpack c p) []) =
        (unfold write settle in rw (e, write)) in
      same
      ∙ ap (settle (length p)) (
          loop_fuel hpack short f (more hpack c p) [] (omega arith)
            (omega (arith, length-append c.write_buf p)))

  joined-settle :
      (o : Bytes) (n m : ℕ) (t : Turn D E)
      → joined o n (settle m t) ≡ settle (n + m) (prefixed hpack o t)
  unfolding joined settle prefixed
  joined-settle o n m (stopped c out) = refl
  joined-settle o n m (failed c) = refl
  joined-settle o n m (next c out) = refl

  settle-after :
      (c : ChromeH2Conn D E) (n f : ℕ) (q : Bytes) (t : Turn D E)
      → Ended hpack c t
      → c.broken ≡ false
      → length c.write_buf + length q < f
      → settle (n + length q) (after hpack f q t) ≡ then_write q (settle n t)
  unfolding settle after then_write Ended
  settle-after c n f q (stopped c1 out) h e l = sym (
      ap (joined out n) (write_settles c1 q f (h.1 ∙ e) (omega (arith, h.0)))
      ∙ joined-settle out n (length q) (write_loop hpack f (more hpack c1 q) [])
      ∙ ap (settle (n + length q)) (
          sym (loop-prefixed hpack f (more hpack c1 q) out [])
          ∙ ap (write_loop hpack f (more hpack c1 q)) (append-nil out)))
  settle-after c n f q (failed c1) h e l = refl
  settle-after c n f q (next c1 out) h e l = absurd h

  one_write :
      (c : ChromeH2Conn D E) (p q : Bytes)
      → c.broken ≡ false
      → write hpack false c (p ++ q) ≡ then_write q (write hpack false c p)
  one_write c p q e =
      let f = suc (length c.write_buf + length p + length q) in
      let c1 = more hpack c p in
      write_settles c (p ++ q) f e (omega (arith, length-append p q))
      ∙ ap (settle (length (p ++ q))) (
          ap (λ b. write_loop hpack f (record c { write_buf = b }) [])
            (sym (append_assoc c.write_buf p q))
          ∙ loop-more hpack f f f c1 q [] (omega (arith, length-append c.write_buf p))
              (omega (arith, length-append c.write_buf p))
              (omega (arith, length-append c.write_buf p)))
      ∙ ap (λ n. settle n (after hpack f q (write_loop hpack f c1 []))) (length-append p q)
      ∙ settle-after c1 (length p) f q (write_loop hpack f c1 [])
          (loop-Ended hpack f c1 [] (omega (arith, length-append c.write_buf p))) e
          (omega (arith, length-append c.write_buf p))
      ∙ ap (then_write q) (sym (write_settles c p f e (omega arith)))

  -- What a write of two parts is to the writes of each in turn: one of both, or an error that sends
  -- nothing.
  abbrev pub Joins : Written → Written → Written → Type 0
  Joins whole (c1, o1, written n) (c2, o2, written m) = whole ≡ (c2, o1 ++ o2, written (n + m))
  Joins whole _ _ = (whole.2 ≡ write_error) × (whole.1 ≡ []) × (whole.0.broken ≡ true)

  BreaksOnError : Written → Type 0
  BreaksOnError w = w.2 ≡ write_error → w.0.broken ≡ true

  settle_breaks : (n : ℕ) (t : Turn D E) → BreaksOnError (settle n t)
  unfolding settle BreaksOnError
  settle_breaks n (stopped c out) e = absurd (cc)
  settle_breaks n (failed c) e = refl
  settle_breaks n (next c out) e = refl

  write_breaks :
      (c : ChromeH2Conn D E) (p : Bytes) → c.broken ≡ false → BreaksOnError (write hpack false c p)
  write_breaks c p e =
      let f = suc (length c.write_buf + length p) in
      subst BreaksOnError (sym (write_settles c p f e (omega arith)))
        (settle_breaks (length p) (write_loop hpack f (more hpack c p) []))

  error_joins :
      (whole : Written) {c : ChromeH2Conn D E}
      → BreaksOnError whole
      → whole ≡ (c, [], write_error)
      → (whole.2 ≡ write_error) × (whole.1 ≡ []) × (whole.0.broken ≡ true)
  unfolding BreaksOnError
  error_joins whole breaks e =
      let failed_too = ap (λ w. w.2) e in (failed_too, ap (λ w. w.1) e, breaks failed_too)

  Joins-second :
      (whole : Written) (c1 : ChromeH2Conn D E) (o : Bytes) (n : ℕ) (second : Written)
      → BreaksOnError whole
      → whole ≡ joined o n second
      → Joins whole (c1, o, written n) second
  unfolding joined
  Joins-second whole c1 o n (c2, o2, written m) breaks e = e
  Joins-second whole c1 o n (c2, o2, write_error) breaks e = error_joins whole breaks e

  Joins-first :
      (whole : Written) (q : Bytes) (first : Written)
      → BreaksOnError whole
      → whole ≡ then_write q first
      → Joins whole first (write hpack false first.0 q)
  unfolding then_write
  Joins-first whole q (c1, o1, written n) breaks e =
      Joins-second whole c1 o1 n (write hpack false c1 q) breaks e
  Joins-first whole q (c1, o1, write_error) breaks e = error_joins whole breaks e

  -- A write of two parts on a connection that is not broken and takes what it is given, against a
  -- write of the first part and then one of the second on what that left. If both succeed, the whole
  -- leaves the same state, sends the two outputs one behind the other and returns the sum of the two
  -- counts. If either fails, the whole fails, sends nothing, and leaves the connection broken.
  pub write-append :
      (c : ChromeH2Conn D E) (p q : Bytes)
      → c.broken ≡ false
      → let first = write hpack false c p in
        Joins (write hpack false c (p ++ q)) first (write hpack false first.0 q)
  write-append c p q e =
      Joins-first (write hpack false c (p ++ q)) q (write hpack false c p)
        (write_breaks c (p ++ q) e) (one_write c p q e)
