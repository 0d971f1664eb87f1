-- ===== src/H2/Settings/Fixed.antt =====
-- Whatever order the client's settings come in, what goes out is fixed.
use sing_xhttp.Common.{
  ℕ, ◌+◌, ◌*◌, ◌/◌, ◌%◌, ◌^◌, ◌<◌, ◌≡◌, refl, ap, sym, ◌∙◌, true, false, ◌||◌, not, none, some, [],
  ◌∷◌, ◌++◌, ◌==◌, length, append_assoc, append-nil, arith, Bool-cases, Option-cases, inl, inr, ◌⊎◌,
}
use sing_xhttp.Common.Text.{Bytes}
use sing_xhttp.H2.Frame.{put_uint16, put_uint32}
use sing_xhttp.H2.Settings.{
  Values, value_of, exists_in, read_settings, write_wanted, chromium_settings,
  chromium_initial_settings,
}

-- A SETTINGS payload.
unfoldable pub encode : Values → Bytes
encode [] = []
encode ((id, v) ∷ vs) = put_uint16 id ++ (put_uint32 v ++ encode vs)

-- The ids are 16 bits wide and come once, the values are 32 bits wide; `seen` came before.
abbrev pub IsSent : Values → Values → Type 0
IsSent seen [] = Unit {0}
IsSent seen ((id, v) ∷ vs) =
    (id < 2 ^ 16) × (v < 2 ^ 32) × (exists_in id seen ≡ false) × IsSent (seen ++ ((id, v) ∷ [])) vs

-- What golang.org/x/net/http2 is set up to send, in any order.
pub record IsExpected (vs : Values) : Type 0 where
  pub count : length vs ≡ 5
  pub table_size : value_of 1 vs ≡ some 65536
  pub push : value_of 2 vs ≡ some 0
  pub window : value_of 4 vs ≡ some (6 * 1024 * 1024)
  pub frame_size : value_of 5 vs ≡ some 16384
  pub list_size : value_of 6 vs ≡ some (256 * 1024)

length-encode : (vs : Values) → length (encode vs) ≡ 6 * length vs
unfolding encode put_uint16 put_uint32
length-encode [] = refl
length-encode ((id, v) ∷ vs) = omega (arith, length-encode vs)

uint16_back : (n : ℕ) → n < 2 ^ 16 → n / 2 ^ 8 % 2 ^ 8 * 2 ^ 8 + n % 2 ^ 8 ≡ n
uint16_back n h = omega arith

uint32_back :
    (n : ℕ)
    → n < 2 ^ 32
    → n / 2 ^ 24 % 2 ^ 8 * 2 ^ 24
        + n / 2 ^ 16 % 2 ^ 8 * 2 ^ 16
        + n / 2 ^ 8 % 2 ^ 8 * 2 ^ 8
        + n % 2 ^ 8
      ≡ n
uint32_back n h = omega arith

read-encode :
    (seen vs : Values) → IsSent seen vs → read_settings seen (encode vs) ≡ some (seen ++ vs)
unfolding read_settings encode put_uint16 put_uint32
read-encode seen [] h = ap some (sym (append-nil seen))
read-encode seen ((id, v) ∷ vs) (small, word, new, rest) =
    rw (uint16_back id small, uint32_back v word, new)
      (read-encode (seen ++ ((id, v) ∷ [])) vs rest ∙ ap some (append_assoc seen ((id, v) ∷ []) vs))

wanted_some :
    (values ws : Values) (id want : ℕ)
    → value_of id values ≡ some want
    → write_wanted values ws ≡ some (encode ws)
    → write_wanted values ((id, want) ∷ ws) ≡ some (encode ((id, want) ∷ ws))
unfolding write_wanted encode
wanted_some values ws id want e k =
    let same : (want == want) ≡ true = ground arith in rw (e, same, k, write_wanted)

wanted_here : (values : Values) → write_wanted values [] ≡ some (encode [])
unfolding write_wanted encode
wanted_here values = refl

all_wanted :
    (vs : Values)
    → IsExpected vs
    → write_wanted vs chromium_settings ≡ some (encode chromium_settings)
all_wanted vs h = wanted_some vs _ 1 _ h.table_size (
    wanted_some vs _ 2 _ h.push
      (wanted_some vs _ 4 _ h.window (wanted_some vs _ 6 _ h.list_size (wanted_here vs))))

accepted :
    (payload : Bytes) (vs : Values)
    → (length payload % 6 == 0) ≡ true
    → read_settings [] payload ≡ some vs
    → value_of 5 vs ≡ some 16384
    → (length vs == 5) ≡ true
    → chromium_initial_settings payload ≡ write_wanted vs chromium_settings
unfolding chromium_initial_settings
accepted payload vs whole read five count = rw (whole, read, five, count, chromium_initial_settings)

-- The settings of the client, in whatever order they stand in its first frame, are replaced by
-- Chromium's in Chromium's order.
pub initial_settings-encode :
    (vs : Values)
    → IsSent [] vs
    → IsExpected vs
    → chromium_initial_settings (encode vs) ≡ some (encode chromium_settings)
initial_settings-encode vs sent h =
    accepted (encode vs) vs (ground (arith, length-encode vs)) (read-encode [] vs sent) h.frame_size
      (ground (arith, h.count))
    ∙ all_wanted vs h

write_wanted-encode :
    (values ws : Values)
    → (write_wanted values ws ≡ none) ⊎ (write_wanted values ws ≡ some (encode ws))
unfolding write_wanted encode
write_wanted-encode values [] = inr refl
write_wanted-encode values ((id, want) ∷ ws) = elim (Option-cases (value_of id values)) [
  | inl k ↦ inl (rw (k, write_wanted))
  | inr (v, k) ↦ elim (Bool-cases (v == want)) [
    | inl m ↦ elim (write_wanted-encode values ws) [
      | inl n ↦ inl (rw (k, m, n, write_wanted))
      | inr n ↦ inr (rw (k, m, n, write_wanted))
    ]
    | inr m ↦ inl (rw (k, m, write_wanted))
  ]
]

-- Whatever the first frame of the client holds, it is refused or becomes Chromium's settings.
initial_settings_fixed :
    (payload : Bytes)
    → (chromium_initial_settings payload ≡ none)
      ⊎ (chromium_initial_settings payload ≡ some (encode chromium_settings))
unfolding chromium_initial_settings
initial_settings_fixed payload = elim (Bool-cases (length payload % 6 == 0)) [
  | inr whole ↦ inl (rw (whole, chromium_initial_settings))
  | inl whole ↦ elim (Option-cases (read_settings [] payload)) [
    | inl read ↦ inl (rw (whole, read, chromium_initial_settings))
    | inr (vs, read) ↦ elim (Option-cases (value_of 5 vs)) [
      | inl five ↦ inl (rw (whole, read, five, chromium_initial_settings))
      | inr (v, five) ↦ elim (Bool-cases (not (length vs == 5) || not (v == 16384))) [
        | inl bad ↦ inl (rw (whole, read, five, bad, chromium_initial_settings))
        | inr good ↦ elim (write_wanted-encode vs chromium_settings) [
          | inl n ↦ inl (rw (whole, read, five, good, n, chromium_initial_settings))
          | inr n ↦ inr (rw (whole, read, five, good, n, chromium_initial_settings))
        ]
      ]
    ]
  ]
]
