-- ===== src/H2/WriteAll.antt =====
-- xhttp/h2_conn.go: writeAll, to a writer that may take less than it is given.
mod Tests
use sing_xhttp.Common.{
  ℕ, zero, suc, ◌≡◌, ◌≢◌, refl, ap, sym, ◌∙◌, Bool, true, false, Option, none, some, List, [], ◌∷◌,
  ◌++◌, ◌==◌, if◌then◌else◌, take, drop, take-append-drop, append-nil, append_assoc, Bool-cases,
  inl, inr,
}
use sing_xhttp.Common.Text.{Bytes}

-- What one Write of the writer answers: how much it took, and an error.
abbrev pub Answers : Type 0 → Type 0
Answers E = List (ℕ × Option E)

-- How the loop ends; `still_writing` is a Write that has not returned.
pub data Ending (E : Type 0) : Type 0 where
  all_written short_write still_writing : Ending E
  sink_failed : E → Ending E

module _ {E : Type 0} where
  -- One round: the error first, then the empty write, then the rest.
  unfoldable pub after_answer : ℕ → Option E → Bytes × Ending E → Bytes → Bytes × Ending E
  after_answer n none rest p =
      if n == 0 then (take n p, short_write) else (take n p ++ rest.0, rest.1)
  after_answer n (some e) rest p = (take n p, sink_failed e)

  -- writeAll: the bytes that the writer took, and how it ended.
  unfoldable pub write_all : Answers E → Bytes → Bytes × Ending E
  unfolding after_answer
  write_all answers [] = ([], all_written)
  write_all [] (b ∷ bs) = ([], still_writing)
  write_all ((n, err) ∷ answers) (b ∷ bs) =
      after_answer n err (write_all answers (drop n (b ∷ bs))) (b ∷ bs)

  -- What the writer took, and what is left of the whole.
  abbrev Splits : Bytes → Bytes × Ending E → Type 0
  Splits p r = (rest : Bytes) × (r.0 ++ rest ≡ p) × (r.1 ≡ all_written → rest ≡ [])

  after_answer-Splits :
      (n : ℕ) (err : Option E) (r : Bytes × Ending E) (p : Bytes)
      → Splits (drop n p) r
      → Splits p (after_answer n err r p)
  unfolding after_answer
  after_answer-Splits n (some e) r p h = (drop n p, take-append-drop n p, λ k. cc)
  after_answer-Splits n none r p (rest, cut, whole) = elim (Bool-cases (n == 0)) [
    | inl e ↦ rw e (drop n p, take-append-drop n p, λ k. cc)
    | inr e ↦ rw e (
      rest,
      append_assoc (take n p) r.0 rest ∙ ap (◌++◌ (take n p)) cut ∙ take-append-drop n p,
      whole,
    )
  ]

  -- The bytes that reach the writer are a beginning of those given, all of them if no error is
  -- returned.
  pub write_all-Splits :
      (answers : Answers E) (p : Bytes)
      → let (taken, ending) = write_all answers p in
        (rest : Bytes) × (taken ++ rest ≡ p) × (ending ≡ all_written → rest ≡ [])
  unfolding write_all
  write_all-Splits [] [] = ([], refl, λ k. refl)
  write_all-Splits (a ∷ answers) [] = ([], refl, λ k. refl)
  write_all-Splits [] (b ∷ bs) = (b ∷ bs, refl, λ k. cc)
  write_all-Splits ((n, err) ∷ answers) (b ∷ bs) =
      after_answer-Splits n err (write_all answers (drop n (b ∷ bs))) (b ∷ bs)
        (write_all-Splits answers (drop n (b ∷ bs)))
