-- ===== src/H2/Conn/Progress.antt =====
-- A round only adds to the output, and takes from the buffer.
use sing_xhttp.Common.{
  ℕ, ◌≤◌, ◌<◌, ◌≡◌, refl, ap, sym, ◌∙◌, subst, ◌⊎◌, inl, inr, Option, none, some, ◌++◌,
  append_assoc, ltb, length, take, drop, length-drop, arith, Bool-cases,
}
use sing_xhttp.Common.Text.{Bytes}
use sing_xhttp.Common.Strings.{has_prefix, bytes_eq}
use sing_xhttp.H2.Frame.{buffered_frame_len}
use sing_xhttp.H2.HeaderBlock.{Hpack}
use sing_xhttp.H2.Transform.{Framing}
use sing_xhttp.H2.Conn.{ChromeH2Conn, Turn, stopped, failed, next, frame_turn, turn, client_preface}
use sing_xhttp.H2.Conn.Rounds.{
  FrameLen-cases, complete-fits, close_turn, frame_turn_complete, frame_turn_incomplete,
  frame_turn_too_long, behind_preface, turn_framed, turn_preface, turn_waits, turn_refused,
}

module _ {D E : Type 0} (hpack : Hpack D E) where
  -- What a round leaves of the output it was given.
  unfoldable pub prefixed : Bytes → Turn D E → Turn D E
  prefixed o (stopped c out) = stopped c (o ++ out)
  prefixed o (failed c) = failed c
  prefixed o (next c out) = next c (o ++ out)

  close_turn-prefixed :
      (c : ChromeH2Conn D E) (o out : Bytes) (n : ℕ) (r : Framing D E × Option Bytes)
      → close_turn hpack c (o ++ out) n r ≡ prefixed o (close_turn hpack c out n r)
  unfolding close_turn prefixed
  close_turn-prefixed c o out n (f, none) = refl
  close_turn-prefixed c o out n (f, some bytes) =
      ap (next (record c { framing = f; write_buf = drop n c.write_buf }))
        (append_assoc o out bytes)

  frame_turn-prefixed :
      (c : ChromeH2Conn D E) (o out : Bytes)
      → frame_turn hpack c (o ++ out) ≡ prefixed o (frame_turn hpack c out)
  unfolding prefixed
  frame_turn-prefixed c o out = elim (FrameLen-cases (buffered_frame_len c.write_buf)) [
    | inl e ↦
        frame_turn_too_long hpack c (o ++ out) e
        ∙ ap (prefixed o) (sym (frame_turn_too_long hpack c out e))
    | inr (inl e) ↦
        frame_turn_incomplete hpack c (o ++ out) e
        ∙ ap (prefixed o) (sym (frame_turn_incomplete hpack c out e))
    | inr (inr (n, e)) ↦
        frame_turn_complete hpack c (o ++ out) n e
        ∙ close_turn-prefixed c o out n _
        ∙ ap (prefixed o) (sym (frame_turn_complete hpack c out n e))
  ]

  -- The four ways of a round.
  turn_cases :
      (c : ChromeH2Conn D E)
      → ((out : Bytes) → turn hpack c out ≡ stopped c out)
        ⊎ (((out : Bytes) → turn hpack c out ≡ failed c)
            ⊎ (((out : Bytes) → turn hpack c out ≡ frame_turn hpack c out)
                ⊎ ((out : Bytes)
                    → turn hpack c out
                      ≡ frame_turn hpack (behind_preface hpack c) (out ++ client_preface))))
  turn_cases c = elim (Bool-cases c.preface_written) [
    | inl e ↦ inr (inr (inl (λ out. turn_framed hpack c out e)))
    | inr e ↦ elim (Bool-cases (ltb (length c.write_buf) (length client_preface))) [
      | inl l ↦ elim (Bool-cases (has_prefix client_preface c.write_buf)) [
        | inl b ↦ inl (λ out. turn_waits hpack c out e l b)
        | inr b ↦ inr (inl (λ out. turn_refused hpack c out e (inl (l, b))))
      ]
      | inr l ↦
          elim (Bool-cases (bytes_eq (take (length client_preface) c.write_buf) client_preface)) [
            | inl b ↦ inr (inr (inr (λ out. turn_preface hpack c out e l b)))
            | inr b ↦ inr (inl (λ out. turn_refused hpack c out e (inr (l, b))))
          ]
    ]
  ]

  pub turn-prefixed :
      (c : ChromeH2Conn D E) (o out : Bytes)
      → turn hpack c (o ++ out) ≡ prefixed o (turn hpack c out)
  unfolding prefixed
  turn-prefixed c o out = elim (turn_cases c) [
    | inl h ↦ h (o ++ out) ∙ ap (prefixed o) (sym (h out))
    | inr (inl h) ↦ h (o ++ out) ∙ ap (prefixed o) (sym (h out))
    | inr (inr (inl h)) ↦ h (o ++ out) ∙ frame_turn-prefixed c o out ∙ ap (prefixed o) (sym (h out))
    | inr (inr (inr h)) ↦
        h (o ++ out)
        ∙ ap (frame_turn hpack (behind_preface hpack c)) (append_assoc o out client_preface)
        ∙ frame_turn-prefixed (behind_preface hpack c) o (out ++ client_preface)
        ∙ ap (prefixed o) (sym (h out))
  ]

  -- A round that goes on has taken bytes out of the buffer, and no round but a failure marks the
  -- connection.
  abbrev pub Keeps : ChromeH2Conn D E → Turn D E → Type 0
  Keeps c (stopped c1 out) = (length c1.write_buf ≤ length c.write_buf) × (c1.broken ≡ c.broken)
  Keeps c (failed c1) = Unit {0}
  Keeps c (next c1 out) = (length c1.write_buf < length c.write_buf) × (c1.broken ≡ c.broken)

  close_turn-Keeps :
      (c : ChromeH2Conn D E) (out : Bytes) (n : ℕ) (r : Framing D E × Option Bytes)
      → (9 ≤ n) × (n ≤ length c.write_buf)
      → Keeps c (close_turn hpack c out n r)
  unfolding close_turn
  close_turn-Keeps c out n (f, none) h = tt
  close_turn-Keeps c out n (f, some bytes) h =
      (omega (arith, length-drop n c.write_buf, h.0, h.1), refl)

  frame_turn-Keeps : (c : ChromeH2Conn D E) (out : Bytes) → Keeps c (frame_turn hpack c out)
  frame_turn-Keeps c out = elim (FrameLen-cases (buffered_frame_len c.write_buf)) [
    | inl e ↦ subst (Keeps c) (sym (frame_turn_too_long hpack c out e)) tt
    | inr (inl e) ↦ subst (Keeps c) (sym (frame_turn_incomplete hpack c out e)) (omega arith, refl)
    | inr (inr (n, e)) ↦
        subst (Keeps c) (sym (frame_turn_complete hpack c out n e))
          (close_turn-Keeps c out n _ (complete-fits c.write_buf n e))
  ]

  Keeps-behind :
      (c : ChromeH2Conn D E) (t : Turn D E) → Keeps (behind_preface hpack c) t → Keeps c t
  Keeps-behind c (stopped c1 out) h =
      (omega (arith, length-drop (length client_preface) c.write_buf, h.0), h.1)
  Keeps-behind c (failed c1) h = tt
  Keeps-behind c (next c1 out) h =
      (omega (arith, length-drop (length client_preface) c.write_buf, h.0), h.1)

  pub turn-Keeps : (c : ChromeH2Conn D E) (out : Bytes) → Keeps c (turn hpack c out)
  turn-Keeps c out = elim (turn_cases c) [
    | inl h ↦ subst (Keeps c) (sym (h out)) (omega arith, refl)
    | inr (inl h) ↦ subst (Keeps c) (sym (h out)) tt
    | inr (inr (inl h)) ↦ subst (Keeps c) (sym (h out)) (frame_turn-Keeps c out)
    | inr (inr (inr h)) ↦
        subst (Keeps c) (sym (h out))
          (Keeps-behind c _ (frame_turn-Keeps (behind_preface hpack c) (out ++ client_preface)))
  ]
