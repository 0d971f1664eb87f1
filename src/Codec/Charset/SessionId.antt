-- ===== src/Codec/Charset/SessionId.antt =====
-- The session IDs that generateSessionID gives.
use sing_xhttp.Common.{
  ℕ, ◌%◌, ◌^◌, ◌≤◌, ◌<◌, ◌≡◌, refl, ap, ◌∙◌, true, ◌⊎◌, inl, inr, Option, some, List, [], ◌∷◌,
  length, arith, Bool-cases, map, max,
}
use sing_xhttp.Common.Int.{pos, is_positive, ltb_ℤ}
use sing_xhttp.Common.Text.{Bytes, codes}
use sing_xhttp.Options.{range}
use sing_xhttp.Options.RangeRand.{range_rand, range_rand_bounds}
use sing_xhttp.Codec.{Codec}
use sing_xhttp.Codec.Charset.{
  drawn, unfinished, or_uuid, rand_string, session_table, session_length, generate_session_id,
  predefined_table,
}
use sing_xhttp.Codec.Charset.Drawn.{Drawable, enough, rand_string-Filled, rand_string-unfinished}

-- The length lies in the configured range.
drawn_length :
    (c : Codec) (from to bits : ℕ)
    → c.session_id_length ≡ range from to
    → from < 2 ^ 31
    → to < 2 ^ 31
    → (n : ℕ) × (session_length c bits ≡ pos n) × (from ≤ n) × (n ≤ max from to)
unfolding session_length range_rand
drawn_length c from to bits e lo hi = elim (Bool-cases (ltb_ℤ (pos from) (pos to))) [
  | inl more ↦
      let (n, is_n, low, high) = range_rand_bounds from to bits lo hi in
      (n, rw (e, more, is_n), low, elim high [ inl h ↦ omega arith | inr h ↦ omega arith ])
  | inr empty ↦ (from, rw (e, empty), omega arith, omega arith)
]

module _ (c : Codec) (t : ℕ) (ts : Bytes) (table : session_table c ≡ t ∷ ts) where
  generated :
      (bits n : ℕ) (reads : List (Option Bytes)) (uuid : Bytes)
      → 0 < n
      → session_length c bits ≡ pos n
      → generate_session_id c bits reads uuid ≡ or_uuid uuid (rand_string (pos n) (t ∷ ts) reads)
  unfolding generate_session_id
  generated bits n reads uuid lo e =
      let go : is_positive (pos n) ≡ true = ground arith in rw (table, e, go) refl

-- With a table that is not empty and a range of lengths above 0, once the generator has given bytes
-- below the limit for the longest of them: the session ID is drawn, all its characters are of the
-- table, and its length lies in the range.
pub generate_session_id_sound :
    (c : Codec) (t : ℕ) (ts : Bytes) (from to bits : ℕ) (bufs : List Bytes) (uuid : Bytes)
    → session_table c ≡ t ∷ ts
    → c.session_id_length ≡ range from to
    → 0 < from
    → from < 2 ^ 31
    → to < 2 ^ 31
    → max from to ≤ enough (t ∷ ts) bufs
    → (id : Bytes) × (generate_session_id c bits (map some bufs) uuid ≡ drawn id)
      × Drawable (t ∷ ts) id
      × (from ≤ length id)
      × (length id ≤ max from to)
generate_session_id_sound c t ts from to bits bufs uuid table e lo low high h =
    let (n, is_n, at_least, at_most) = drawn_length c from to bits e low high in
    let (id, is_id, size, fine) = rand_string-Filled n t ts bufs (omega arith) (omega arith) in
    let same = generated c t ts table bits n (map some bufs) uuid (omega arith) is_n in
    (id, same ∙ ap (or_uuid uuid) is_id, fine, omega arith, omega arith)

-- A table of 16 characters.
sixteen :
    (c : Codec) (t : ℕ) (ts : Bytes) (from to bits : ℕ) (bufs : List Bytes) (uuid : Bytes)
    → session_table c ≡ t ∷ ts
    → 256 % length (t ∷ ts) ≡ 0
    → c.session_id_length ≡ range from to
    → 0 < from
    → from < 2 ^ 31
    → to < 2 ^ 31
    → generate_session_id c bits (map some bufs) uuid ≡ unfinished []
sixteen c t ts from to bits bufs uuid table divides e lo low high =
    let (n, is_n, at_least, _) = drawn_length c from to bits e low high in
    generated c t ts table bits n (map some bufs) uuid (omega arith) is_n
    ∙ ap (or_uuid uuid) (rand_string-unfinished n t ts bufs (omega arith) (inl divides))

-- With the predefined table "hex" or "HEX" and lengths above 0, no session ID is ever generated: 16
-- divides 256, so the limit is 0 as a byte and each byte of each buffer is thrown away.
pub hex_never_ends :
    (c : Codec) (from to bits : ℕ) (bufs : List Bytes) (uuid : Bytes)
    → (c.session_id_table ≡ "hex") ⊎ (c.session_id_table ≡ "HEX")
    → c.session_id_length ≡ range from to
    → 0 < from
    → from < 2 ^ 31
    → to < 2 ^ 31
    → generate_session_id c bits (map some bufs) uuid ≡ unfinished []
unfolding session_table predefined_table
hex_never_ends c from to bits bufs uuid (inl name) e lo low high =
    sixteen c b'0' (codes "123456789abcdef") from to bits bufs uuid (rw name refl) refl e lo low
      high
hex_never_ends c from to bits bufs uuid (inr name) e lo low high =
    sixteen c b'0' (codes "123456789ABCDEF") from to bits bufs uuid (rw name refl) refl e lo low
      high
