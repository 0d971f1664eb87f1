-- ===== src/H2/Conn/Loop.antt =====
-- The loop of Write over its rounds: enough fuel, more bytes behind, and how it ends.
use sing_xhttp.Common.{
  ℕ, zero, suc, ◌+◌, ◌≤◌, ◌<◌, ◌≡◌, refl, ap, sym, ◌∙◌, subst, ◌++◌, length, length-append, arith,
}
use sing_xhttp.Common.Text.{Bytes}
use sing_xhttp.H2.HeaderBlock.{Hpack}
use sing_xhttp.H2.Conn.{ChromeH2Conn, Turn, stopped, failed, next, turn, write_loop}
use sing_xhttp.H2.Conn.Rounds.{more, resume, turn-more}
use sing_xhttp.H2.Conn.Progress.{prefixed, turn-prefixed, Keeps, turn-Keeps}

module _ {D E : Type 0} (hpack : Hpack D E) where
  follow : ℕ → Turn D E → Turn D E
  follow f (stopped c out) = stopped c out
  follow f (failed c) = failed c
  follow f (next c out) = write_loop hpack f c out

  loop_follow :
      (f : ℕ) (c : ChromeH2Conn D E) (out : Bytes)
      → write_loop hpack (suc f) c out ≡ follow f (turn hpack c out)
  unfolding write_loop follow
  loop_follow f c out = refl

  follow_fuel :
      (f g : ℕ) (c : ChromeH2Conn D E) (t : Turn D E)
      → Keeps hpack c t
      → ((c1 : ChromeH2Conn D E) (out : Bytes)
          → length c1.write_buf < length c.write_buf
          → write_loop hpack f c1 out ≡ write_loop hpack g c1 out)
      → follow f t ≡ follow g t
  unfolding follow
  follow_fuel f g c (stopped c1 out) k ih = refl
  follow_fuel f g c (failed c1) k ih = refl
  follow_fuel f g c (next c1 out) k ih = ih c1 out k.0

  -- Both fuels are enough, so they give the same.
  pub loop_fuel :
      (f g : ℕ) (c : ChromeH2Conn D E) (out : Bytes)
      → length c.write_buf < f
      → length c.write_buf < g
      → write_loop hpack f c out ≡ write_loop hpack g c out
  loop_fuel zero g c out h k = absurd (omega arith)
  loop_fuel (suc f) zero c out h k = absurd (omega arith)
  loop_fuel (suc f) (suc g) c out h k =
      loop_follow f c out
      ∙ follow_fuel f g c (turn hpack c out) (turn-Keeps hpack c out)
          (λ c1 o l. loop_fuel f g c1 o (omega arith) (omega arith))
      ∙ sym (loop_follow g c out)

  -- The loop goes on where it had stopped.
  unfoldable pub after : ℕ → Bytes → Turn D E → Turn D E
  after g q (stopped c out) = write_loop hpack g (more hpack c q) out
  after g q (failed c) = failed (more hpack c q)
  after g q (next c out) = next (more hpack c q) out

  follow-after :
      (f g n : ℕ) (c : ChromeH2Conn D E) (q : Bytes) (t : Turn D E)
      → Keeps hpack c t
      → length c.write_buf + length q < suc g
      → length c.write_buf + length q < n
      → ((c1 : ChromeH2Conn D E) (out : Bytes)
          → length c1.write_buf < length c.write_buf
          → write_loop hpack g (more hpack c1 q) out ≡ after n q (write_loop hpack f c1 out))
      → follow g (resume hpack q (turn hpack) t) ≡ after n q (follow f t)
  unfolding follow after resume
  follow-after f g n c q (stopped c1 out) k l m ih =
      sym (loop_follow g (more hpack c1 q) out)
      ∙ loop_fuel (suc g) n (more hpack c1 q) out (omega (arith, k.0, length-append c1.write_buf q))
          (omega (arith, k.0, length-append c1.write_buf q))
  follow-after f g n c q (failed c1) k l m ih = refl
  follow-after f g n c q (next c1 out) k l m ih = ih c1 out k.0

  pub loop-more :
      (f g n : ℕ) (c : ChromeH2Conn D E) (q out : Bytes)
      → length c.write_buf < f
      → length c.write_buf + length q < g
      → length c.write_buf + length q < n
      → write_loop hpack g (more hpack c q) out ≡ after n q (write_loop hpack f c out)
  loop-more zero g n c q out h k l = absurd (omega arith)
  loop-more (suc f) zero n c q out h k l = absurd (omega arith)
  loop-more (suc f) (suc g) n c q out h k l =
      loop_follow g (more hpack c q) out
      ∙ ap (follow g) (turn-more hpack c q out)
      ∙ follow-after f g n c q (turn hpack c out) (turn-Keeps hpack c out) k l
          (λ c1 o m. loop-more f g n c1 q o (omega arith) (omega arith) (omega arith))
      ∙ ap (after n q) (sym (loop_follow f c out))

  follow-prefixed :
      (f : ℕ) (o : Bytes) (t : Turn D E)
      → ((c : ChromeH2Conn D E) (out : Bytes)
          → write_loop hpack f c (o ++ out) ≡ prefixed hpack o (write_loop hpack f c out))
      → follow f (prefixed hpack o t) ≡ prefixed hpack o (follow f t)
  unfolding follow prefixed
  follow-prefixed f o (stopped c out) ih = refl
  follow-prefixed f o (failed c) ih = refl
  follow-prefixed f o (next c out) ih = ih c out

  -- The loop only adds to the output it was given.
  pub loop-prefixed :
      (f : ℕ) (c : ChromeH2Conn D E) (o out : Bytes)
      → write_loop hpack f c (o ++ out) ≡ prefixed hpack o (write_loop hpack f c out)
  unfolding write_loop prefixed
  loop-prefixed zero c o out = refl
  loop-prefixed (suc f) c o out =
      loop_follow f c (o ++ out)
      ∙ ap (follow f) (turn-prefixed hpack c o out)
      ∙ follow-prefixed f o (turn hpack c out) (λ c1 p. loop-prefixed f c1 o p)
      ∙ ap (prefixed hpack o) (sym (loop_follow f c out))

  -- The loop ends: it stops or fails.
  unfoldable pub Ended : ChromeH2Conn D E → Turn D E → Type 0
  Ended c (stopped c1 out) = (length c1.write_buf ≤ length c.write_buf) × (c1.broken ≡ c.broken)
  Ended c (failed c1) = Unit {0}
  Ended c (next c1 out) = ⊥

  widen :
      (c c1 : ChromeH2Conn D E) (t : Turn D E)
      → length c1.write_buf < length c.write_buf
      → c1.broken ≡ c.broken
      → Ended c1 t
      → Ended c t
  unfolding Ended
  widen c c1 (stopped c2 out) l e h = (omega (arith, h.0), h.1 ∙ e)
  widen c c1 (failed c2) l e h = tt
  widen c c1 (next c2 out) l e h = h

  follow-Ended :
      (f : ℕ) (c : ChromeH2Conn D E) (t : Turn D E)
      → Keeps hpack c t
      → ((c1 : ChromeH2Conn D E) (out : Bytes)
          → length c1.write_buf < length c.write_buf
          → Ended c1 (write_loop hpack f c1 out))
      → Ended c (follow f t)
  unfolding follow Ended
  follow-Ended f c (stopped c1 out) k ih = k
  follow-Ended f c (failed c1) k ih = tt
  follow-Ended f c (next c1 out) k ih =
      widen c c1 (write_loop hpack f c1 out) k.0 k.1 (ih c1 out k.0)

  pub loop-Ended :
      (f : ℕ) (c : ChromeH2Conn D E) (out : Bytes)
      → length c.write_buf < f
      → Ended c (write_loop hpack f c out)
  loop-Ended zero c out h = absurd (omega arith)
  loop-Ended (suc f) c out h = subst (Ended c) (sym (loop_follow f c out)) (
      follow-Ended f c (turn hpack c out) (turn-Keeps hpack c out)
        (λ c1 o l. loop-Ended f c1 o (omega arith)))
