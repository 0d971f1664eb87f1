-- ===== src/H2/VarInt.antt =====
-- xhttp/h2_conn.go: HPACK integers and the table size updates at the head of a header block.
use sing_xhttp.Common.{
  ℕ, zero, suc, ◌+◌, ◌-◌, ◌*◌, ◌/◌, ◌%◌, ◌^◌, ◌&&◌, ◌||◌, not, Option, none, some, List, [], ◌∷◌,
  ◌==◌, leb, ltb, if◌then◌else◌, length, drop,
}
use sing_xhttp.Common.Text.{Bytes}

-- The loop of readHPACKVarInt from the i-th byte on; the sum is a uint64.
unfoldable pub read_more : ℕ → ℕ → ℕ → Bytes → Option (ℕ × ℕ)
read_more i shift value [] = none
read_more i shift value (b ∷ bs) =
    let rest = read_more (i + 1) (shift + 7) ((value + b % 128 * 2 ^ shift) % 2 ^ 64) bs in
    if ltb 10 i
    then none
    else (if leb 63 shift && not (b % 128 == 0)
        then none
        else (if b / 128 % 2 == 0
            then some ((value + b % 128 * 2 ^ shift) % 2 ^ 64, i + 1)
            else rest))

-- readHPACKVarInt: the value and the number of bytes it takes.
unfoldable pub read_hpack_var_int : Bytes → ℕ → Option (ℕ × ℕ)
unfolding read_more
read_hpack_var_int [] prefix = none
read_hpack_var_int (b ∷ bs) prefix =
    if prefix == 0 || ltb 8 prefix
    then none
    else (let mask = 2 ^ prefix - 1 in
        let value = b % 2 ^ prefix in
        if ltb value mask then some (value, 1) else read_more 1 0 value bs)

-- The loop of hpackTableSizeUpdates, with the length of the block as fuel.
unfoldable pub size_updates : ℕ → Bytes → Option (List ℕ)
size_updates fuel [] = some []
size_updates zero (b ∷ bs) = some []
size_updates (suc fuel) (b ∷ bs) =
    if b / 32 == 1
    then (elim (read_hpack_var_int (b ∷ bs) 5) [
      | none ↦ none
      | some (value, consumed) ↦
          let rest = size_updates fuel (drop consumed (b ∷ bs)) in
          if ltb (2 ^ 32 - 1) value
          then none
          else (elim rest [ none ↦ none | some sizes ↦ some (value ∷ sizes) ])
    ])
    else some []

-- hpackTableSizeUpdates
unfoldable pub hpack_table_size_updates : Bytes → Option (List ℕ)
unfolding size_updates
hpack_table_size_updates block = size_updates (length block) block
