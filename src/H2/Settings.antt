-- ===== src/H2/Settings.antt =====
-- xhttp/h2_conn.go: the first SETTINGS frame as Chromium sends it.
pub mod Fixed
use sing_xhttp.Common.{
  ℕ, ◌+◌, ◌*◌, ◌%◌, ◌^◌, Bool, true, false, ◌||◌, not, Option, none, some, List, [], ◌∷◌, ◌++◌,
  ◌==◌, if◌then◌else◌, length,
}
use sing_xhttp.Common.Text.{Bytes}
use sing_xhttp.H2.Frame.{put_uint16, put_uint32}

-- The map `values`, with the settings in the order they came in.
abbrev pub Values : Type 0
Values = List (ℕ × ℕ)

unfoldable pub value_of : ℕ → Values → Option ℕ
value_of id [] = none
value_of id ((j, v) ∷ vs) = if j == id then some v else value_of id vs

abbrev exists_in : ℕ → Values → Bool
exists_in id vs = elim (value_of id vs) [ none ↦ false | some _ ↦ true ]

-- The loop that fills `values`; `none` on an id that came before, or on a rest shorter than six.
unfoldable pub read_settings : Values → Bytes → Option Values
read_settings values [] = some values
read_settings values (a ∷ b ∷ c ∷ d ∷ e ∷ f ∷ payload) =
    let id = a * 2 ^ 8 + b in
    let value = c * 2 ^ 24 + d * 2 ^ 16 + e * 2 ^ 8 + f in
    let rest = read_settings (values ++ ((id, value) ∷ [])) payload in
    if exists_in id values then none else rest
read_settings values _ = none

-- The loop over `want`.
unfoldable pub write_wanted : Values → Values → Option Bytes
write_wanted values [] = some []
write_wanted values ((id, want) ∷ ws) = elim (value_of id values) [
  | none ↦ none
  | some v ↦
      if v == want
      then (elim (write_wanted values ws) [
        | none ↦ none
        | some out ↦ some (put_uint16 id ++ (put_uint32 want ++ out))
      ])
      else none
]

abbrev pub chromium_settings : Values
chromium_settings = (1, 65536) ∷ (2, 0) ∷ (4, 6 * 1024 * 1024) ∷ (6, 256 * 1024) ∷ []

-- chromiumInitialSettings
unfoldable pub chromium_initial_settings : Bytes → Option Bytes
unfolding read_settings write_wanted
chromium_initial_settings payload =
    if not (length payload % 6 == 0) then none else (elim (read_settings [] payload) [
      | none ↦ none
      | some values ↦ elim (value_of 5 values) [
        | none ↦ none
        | some five ↦
            if not (length values == 5) || not (five == 16384)
            then none
            else write_wanted values chromium_settings
      ]
    ])
