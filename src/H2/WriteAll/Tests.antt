-- ===== src/H2/WriteAll/Tests.antt =====
-- A writer that takes two bytes, then the rest.
use sing_xhttp.Common.{ℕ, ◌≡◌, none, [], ◌∷◌, ◌++◌}
use sing_xhttp.Common.Text.{Bytes}
use sing_xhttp.H2.WriteAll.{Answers, all_written, write_all, write_all-Splits}

abbrev two_then_one : Answers ℕ
two_then_one = (2, none) ∷ (1, none) ∷ []

write_all-Splits_example :
    let (taken, ending) = write_all two_then_one (7 ∷ 8 ∷ 9 ∷ []) in
    (rest : Bytes) × (taken ++ rest ≡ 7 ∷ 8 ∷ 9 ∷ []) × (ending ≡ all_written → rest ≡ [])
write_all-Splits_example = write_all-Splits two_then_one (7 ∷ 8 ∷ 9 ∷ [])
