-- ===== src/H2/Conn/Rounds.antt =====
-- One round of the loop of Write, and what more bytes behind make of it.
use sing_xhttp.Common.{
  ℕ, zero, suc, ◌≤◌, ◌<◌, ◌≡◌, refl, ap, sym, ◌∙◌, ◌⊎◌, inl, inr, Bool, true, false, Option, none,
  some, [], ◌∷◌, ◌++◌, ltb, length, take, drop, length-append, arith, Bool-cases,
}
use sing_xhttp.Common.Text.{Bytes}
use sing_xhttp.Common.Strings.{has_prefix, bytes_eq}
use sing_xhttp.H2.Frame.{FrameLen, too_long, incomplete, complete, buffered_frame_len, byte_at}
use sing_xhttp.H2.HeaderBlock.{Hpack}
use sing_xhttp.H2.Transform.{Framing, transform_write_frame}
use sing_xhttp.H2.Conn.{ChromeH2Conn, Turn, stopped, failed, next, frame_turn, turn, client_preface}

take-append_le : (n : ℕ) (b q : Bytes) → n ≤ length b → take n (b ++ q) ≡ take n b
take-append_le zero b q h = refl
take-append_le (suc n) [] q h = absurd (omega arith)
take-append_le (suc n) (x ∷ b) q h = ap (◌∷◌ x) (take-append_le n b q (omega arith))

drop-append_le : (n : ℕ) (b q : Bytes) → n ≤ length b → drop n (b ++ q) ≡ drop n b ++ q
drop-append_le zero b q h = refl
drop-append_le (suc n) [] q h = absurd (omega arith)
drop-append_le (suc n) (x ∷ b) q h = drop-append_le n b q (omega arith)

pub FrameLen-cases :
    (l : FrameLen) → (l ≡ too_long) ⊎ ((l ≡ incomplete) ⊎ ((n : ℕ) × (l ≡ complete n)))
FrameLen-cases too_long = inl refl
FrameLen-cases incomplete = inr (inl refl)
FrameLen-cases (complete n) = inr (inr (n, refl))

pub complete-fits :
    (b : Bytes) (n : ℕ) → buffered_frame_len b ≡ complete n → (9 ≤ n) × (n ≤ length b)
unfolding buffered_frame_len
complete-fits b n e = ground arith

byte_at-append : (b q : Bytes) (i : ℕ) → i < length b → byte_at (b ++ q) i ≡ byte_at b i
byte_at-append [] q i h = absurd (omega arith)
byte_at-append (x ∷ b) q zero h = refl
byte_at-append (x ∷ b) q (suc i) h = byte_at-append b q i (omega arith)

-- More bytes behind do not change a length that is known.
buffered-more :
    (b q : Bytes)
    → (buffered_frame_len b ≡ incomplete) ⊎ (buffered_frame_len (b ++ q) ≡ buffered_frame_len b)
unfolding buffered_frame_len
buffered-more b q = elim (Bool-cases (ltb (length b) 9)) [
  | inl e ↦ inl (rw e)
  | inr e ↦
      rw
        (
          byte_at-append b q 0 (ground arith),
          byte_at-append b q 1 (ground arith),
          byte_at-append b q 2 (ground arith),
        )
        (ground (arith, length-append b q))
]

known :
    (b q : Bytes) (l : FrameLen)
    → buffered_frame_len b ≡ l
    → (l ≡ incomplete → ⊥)
    → buffered_frame_len (b ++ q) ≡ l
known b q l e h = elim (buffered-more b q) [ inl k ↦ absurd (h (sym e ∙ k)) | inr k ↦ k ∙ e ]

prefix-more : (s b q : Bytes) → has_prefix s b ≡ false → has_prefix s (b ++ q) ≡ false
unfolding has_prefix
prefix-more s [] q e = cc
prefix-more [] (x ∷ b) q e = refl
prefix-more (y ∷ s) (x ∷ b) q e = ground (arith, prefix-more s b q)

-- A text that is no prefix is not the beginning of the whole either.
not_whole :
    (s b q : Bytes)
    → length b ≤ length s
    → has_prefix s b ≡ false
    → bytes_eq (take (length s) (b ++ q)) s ≡ false
unfolding has_prefix bytes_eq
not_whole s [] q h e = cc
not_whole [] (x ∷ b) q h e = absurd (omega arith)
not_whole (y ∷ s) (x ∷ b) q h e = ground (arith, not_whole s b q (omega arith))

still_long :
    (b q : Bytes)
    → ltb (length b) (length client_preface) ≡ false
    → ltb (length (b ++ q)) (length client_preface) ≡ false
still_long b q l = ground (arith, length-append b q)

still_equal :
    (b q : Bytes) {t : Bool}
    → ltb (length b) (length client_preface) ≡ false
    → bytes_eq (take (length client_preface) b) client_preface ≡ t
    → bytes_eq (take (length client_preface) (b ++ q)) client_preface ≡ t
still_equal b q l e =
    ap (λ r. bytes_eq r client_preface) (take-append_le (length client_preface) b q (ground arith))
    ∙ e

still_refused :
    (b q : Bytes)
    → ltb (length b) (length client_preface) ≡ true
    → has_prefix client_preface b ≡ false
    → (ltb (length (b ++ q)) (length client_preface) ≡ true)
        × (has_prefix client_preface (b ++ q) ≡ false)
      ⊎ (ltb (length (b ++ q)) (length client_preface) ≡ false)
        × (bytes_eq (take (length client_preface) (b ++ q)) client_preface ≡ false)
still_refused b q l e = elim (Bool-cases (ltb (length (b ++ q)) (length client_preface))) [
  | inl k ↦ inl (k, prefix-more client_preface b q e)
  | inr k ↦ inr (k, not_whole client_preface b q (ground arith) e)
]

module _ {D E : Type 0} (hpack : Hpack D E) where
  abbrev pub more : ChromeH2Conn D E → Bytes → ChromeH2Conn D E
  more c q = record c { write_buf = c.write_buf ++ q }

  -- A round with more bytes behind: it does the same, and where it had stopped it looks again.
  unfoldable pub resume : Bytes → (ChromeH2Conn D E → Bytes → Turn D E) → Turn D E → Turn D E
  resume q again (stopped c out) = again (more c q) out
  resume q again (failed c) = failed (more c q)
  resume q again (next c out) = next (more c q) out

  resume_failed :
      (again : ChromeH2Conn D E → Bytes → Turn D E) (q : Bytes) (c : ChromeH2Conn D E)
      → resume q again (failed c) ≡ failed (more c q)
  unfolding resume
  resume_failed again q c = refl

  resume_stopped :
      (again : ChromeH2Conn D E → Bytes → Turn D E) (q : Bytes) (c : ChromeH2Conn D E) (out : Bytes)
      → resume q again (stopped c out) ≡ again (more c q) out
  unfolding resume
  resume_stopped again q c out = refl

  -- The end of a round, with what the frame became.
  unfoldable pub close_turn : ChromeH2Conn D E → Bytes → ℕ → Framing D E × Option Bytes → Turn D E
  close_turn c output n r = elim r.1 [
    | none ↦ failed (record c { framing = r.0 })
    | some bytes ↦
        next (record c { framing = r.0; write_buf = drop n c.write_buf }) (output ++ bytes)
  ]

  pub frame_turn_complete :
      (c : ChromeH2Conn D E) (output : Bytes) (n : ℕ)
      → buffered_frame_len c.write_buf ≡ complete n
      → frame_turn hpack c output
        ≡ close_turn c output n (transform_write_frame hpack c.framing (take n c.write_buf))
  unfolding frame_turn close_turn
  frame_turn_complete c output n e = rw (e, frame_turn)

  pub frame_turn_incomplete :
      (c : ChromeH2Conn D E) (output : Bytes)
      → buffered_frame_len c.write_buf ≡ incomplete
      → frame_turn hpack c output ≡ stopped c output
  unfolding frame_turn
  frame_turn_incomplete c output e = rw (e, frame_turn)

  pub frame_turn_too_long :
      (c : ChromeH2Conn D E) (output : Bytes)
      → buffered_frame_len c.write_buf ≡ too_long
      → frame_turn hpack c output ≡ failed c
  unfolding frame_turn
  frame_turn_too_long c output e = rw (e, frame_turn)

  close_turn-more :
      (c : ChromeH2Conn D E) (q output : Bytes) (n : ℕ)
      (again : ChromeH2Conn D E → Bytes → Turn D E) (r : Framing D E × Option Bytes)
      → n ≤ length c.write_buf
      → close_turn (more c q) output n r ≡ resume q again (close_turn c output n r)
  unfolding close_turn resume
  close_turn-more c q output n again (f, none) h = refl
  close_turn-more c q output n again (f, some bytes) h = rw (drop-append_le n c.write_buf q h)

  frame_turn-more :
      (c : ChromeH2Conn D E) (q output : Bytes) (again : ChromeH2Conn D E → Bytes → Turn D E)
      → again (more c q) output ≡ frame_turn hpack (more c q) output
      → frame_turn hpack (more c q) output ≡ resume q again (frame_turn hpack c output)
  frame_turn-more c q output again same = elim (FrameLen-cases (buffered_frame_len c.write_buf)) [
    | inl e ↦
        frame_turn_too_long (more c q) output (known c.write_buf q too_long e (λ k. cc))
        ∙ sym (ap (resume q again) (frame_turn_too_long c output e) ∙ resume_failed again q c)
    | inr (inl e) ↦ sym (
        ap (resume q again) (frame_turn_incomplete c output e)
        ∙ resume_stopped again q c output
        ∙ same)
    | inr (inr (n, e)) ↦
        let fits = (complete-fits c.write_buf n e).1 in
        frame_turn_complete (more c q) output n (known c.write_buf q (complete n) e (λ k. cc))
        ∙ ap (λ b. close_turn (more c q) output n (transform_write_frame hpack c.framing b))
            (take-append_le n c.write_buf q fits)
        ∙ close_turn-more c q output n again _ fits
        ∙ ap (resume q again) (sym (frame_turn_complete c output n e))
  ]

  abbrev pub behind_preface : ChromeH2Conn D E → ChromeH2Conn D E
  behind_preface c = record c {
    write_buf = drop (length client_preface) c.write_buf;
    preface_written = true;
  }

  pub turn_framed :
      (c : ChromeH2Conn D E) (output : Bytes)
      → c.preface_written ≡ true
      → turn hpack c output ≡ frame_turn hpack c output
  unfolding turn
  turn_framed c output e = rw (e, turn)

  pub turn_preface :
      (c : ChromeH2Conn D E) (output : Bytes)
      → c.preface_written ≡ false
      → ltb (length c.write_buf) (length client_preface) ≡ false
      → bytes_eq (take (length client_preface) c.write_buf) client_preface ≡ true
      → turn hpack c output ≡ frame_turn hpack (behind_preface c) (output ++ client_preface)
  unfolding turn
  turn_preface c output e l b = rw (e, l, b, turn)

  pub turn_waits :
      (c : ChromeH2Conn D E) (output : Bytes)
      → c.preface_written ≡ false
      → ltb (length c.write_buf) (length client_preface) ≡ true
      → has_prefix client_preface c.write_buf ≡ true
      → turn hpack c output ≡ stopped c output
  unfolding turn
  turn_waits c output e l b = rw (e, l, b, turn)

  pub turn_refused :
      (c : ChromeH2Conn D E) (output : Bytes)
      → c.preface_written ≡ false
      → (ltb (length c.write_buf) (length client_preface) ≡ true)
          × (has_prefix client_preface c.write_buf ≡ false)
        ⊎ (ltb (length c.write_buf) (length client_preface) ≡ false)
          × (bytes_eq (take (length client_preface) c.write_buf) client_preface ≡ false)
      → turn hpack c output ≡ failed c
  unfolding turn
  turn_refused c output e (inl (l, b)) = rw (e, l, b, turn)
  turn_refused c output e (inr (l, b)) = rw (e, l, b, turn)

  pub turn-more :
      (c : ChromeH2Conn D E) (q output : Bytes)
      → turn hpack (more c q) output ≡ resume q (turn hpack) (turn hpack c output)
  turn-more c q output = elim (Bool-cases c.preface_written) [
    | inl e ↦
        turn_framed (more c q) output e
        ∙ frame_turn-more c q output (turn hpack) (turn_framed (more c q) output e)
        ∙ ap (resume q (turn hpack)) (sym (turn_framed c output e))
    | inr e ↦ elim (Bool-cases (ltb (length c.write_buf) (length client_preface))) [
      | inl l ↦ elim (Bool-cases (has_prefix client_preface c.write_buf)) [
        | inl b ↦ sym (
            ap (resume q (turn hpack)) (turn_waits c output e l b)
            ∙ resume_stopped (turn hpack) q c output)
        | inr b ↦
            turn_refused (more c q) output e (still_refused c.write_buf q l b)
            ∙ sym (
                ap (resume q (turn hpack)) (turn_refused c output e (inl (l, b)))
                ∙ resume_failed (turn hpack) q c)
      ]
      | inr l ↦
          let long = still_long c.write_buf q l in
          elim (Bool-cases (bytes_eq (take (length client_preface) c.write_buf) client_preface)) [
            | inl b ↦
                turn_preface (more c q) output e long (still_equal c.write_buf q l b)
                ∙ ap
                    (λ r.
                      frame_turn hpack (record c { write_buf = r; preface_written = true })
                        (output ++ client_preface))
                    (drop-append_le (length client_preface) c.write_buf q (ground arith))
                ∙ frame_turn-more (behind_preface c) q (output ++ client_preface) (turn hpack)
                    (turn_framed (more (behind_preface c) q) (output ++ client_preface) refl)
                ∙ ap (resume q (turn hpack)) (sym (turn_preface c output e l b))
            | inr b ↦
                turn_refused (more c q) output e (inr (long, still_equal c.write_buf q l b))
                ∙ sym (
                    ap (resume q (turn hpack)) (turn_refused c output e (inr (l, b)))
                    ∙ resume_failed (turn hpack) q c)
          ]
    ]
  ]
