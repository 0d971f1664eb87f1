-- ===== src/Codec/Charset.antt =====
-- xhttp/meta.go: random strings over a character set, and the session IDs made of them. What the
-- generator gives is a list of reads: the bytes of one buffer, or `none` for an error.
pub mod Drawn
pub mod SessionId
use sing_xhttp.Common.{
  ℕ, zero, suc, ◌-◌, ◌%◌, ◌+◌, Bool, true, false, ◌&&◌, ◌||◌, not, Option, none, some, get_or, List,
  [], ◌∷◌, ◌++◌, length, get_elem?, leb, if◌then◌else◌,
}
use sing_xhttp.Common.Int.{ℤ, pos_part, is_positive, ltb_ℤ}
use sing_xhttp.Common.Text.{Bytes, String, codes, str_eq}
use sing_xhttp.Options.RangeRand.{range_rand}
use sing_xhttp.Codec.{Codec}

-- `unfinished` is a call that asks for more than the reads given, with what it has so far.
pub data Draw : Type 0 where
  drawn : Bytes → Draw
  refused : Draw
  unfinished : Bytes → Draw

-- byte(256 - 256 % m): what is 256 before the conversion is 0 after it.
unfoldable pub limit : ℕ → ℕ
limit m = (256 - 256 % m) % 256

-- `b >= limit`
unfoldable pub is_biased : Bytes → ℕ → Bool
is_biased charset b = leb (limit (length charset)) b

-- charset[int(b) % m], an index below m.
abbrev pub char_at : Bytes → ℕ → ℕ
char_at charset b = get_or (get_elem? charset (b % length charset)) 0

-- The loop over one buffer: the characters that its bytes give, as many as are still missing.
unfoldable pub pick_chars : Bytes → ℕ → Bytes → Bytes
pick_chars charset zero buf = []
pick_chars charset (suc left) [] = []
pick_chars charset (suc left) (b ∷ buf) = elim (is_biased charset b) [
  | true ↦ pick_chars charset (suc left) buf
  | false ↦ char_at charset b ∷ pick_chars charset left buf
]

-- The characters of a buffer in front of what the later buffers give.
abbrev pub in_front : Bytes → Draw → Draw
in_front got (drawn s) = drawn (got ++ s)
in_front got refused = refused
in_front got (unfinished s) = unfinished (got ++ s)

-- The outer loop.
unfoldable pub fill_chars : Bytes → ℕ → List (Option Bytes) → Draw
fill_chars charset zero reads = drawn []
fill_chars charset (suc left) [] = unfinished []
fill_chars charset (suc left) (none ∷ reads) = refused
fill_chars charset (suc left) (some buf ∷ reads) =
    let got = pick_chars charset (suc left) buf in
    in_front got (fill_chars charset (suc left - length got) reads)

abbrev is_empty : Bytes → Bool
is_empty [] = true
is_empty _ = false

-- randStringFromCharset
unfoldable pub rand_string : ℤ → Bytes → List (Option Bytes) → Draw
rand_string n charset reads =
    if not (is_positive n) || is_empty charset
    then refused
    else fill_chars charset (pos_part n) reads

-- PredefinedTable
unfoldable pub predefined_table : String → Option String
predefined_table name =
    if str_eq name "ALPHABET"
    then some "ABCDEFGHIJKLMNOPQRSTUVWXYZ"
    else (if str_eq name "Alphabet"
        then some "ABCDEFGHIJKLMNOPQRSTUVWXYZabcdefghijklmnopqrstuvwxyz"
        else (if str_eq name "BASE36"
            then some "0123456789ABCDEFGHIJKLMNOPQRSTUVWXYZ"
            else (if str_eq name "Base62"
                then some "0123456789ABCDEFGHIJKLMNOPQRSTUVWXYZabcdefghijklmnopqrstuvwxyz"
                else (if str_eq name "HEX"
                    then some "0123456789ABCDEF"
                    else (if str_eq name "alphabet"
                        then some "abcdefghijklmnopqrstuvwxyz"
                        else (if str_eq name "base36"
                            then some "0123456789abcdefghijklmnopqrstuvwxyz"
                            else (if str_eq name "hex"
                                then some "0123456789abcdef"
                                else (if str_eq name "number"
                                    then some "0123456789"
                                    else none))))))))

unfoldable pub session_table : Codec → Bytes
session_table c = codes (get_or (predefined_table c.session_id_table) c.session_id_table)

unfoldable pub session_length : Codec → ℕ → ℤ
session_length c bits =
    let r = c.session_id_length in if ltb_ℤ r.from r.to then range_rand r bits else r.from

-- The UUID stands in for a string that was refused.
abbrev pub or_uuid : Bytes → Draw → Draw
or_uuid uuid refused = drawn uuid
or_uuid uuid (drawn s) = drawn s
or_uuid uuid (unfinished s) = unfinished s

-- (*codec).generateSessionID, with what newUUID gives.
unfoldable pub generate_session_id : Codec → ℕ → List (Option Bytes) → Bytes → Draw
generate_session_id c bits reads uuid =
    let table = session_table c in
    let n = session_length c bits in
    if not (is_empty table) && is_positive n
    then or_uuid uuid (rand_string n table reads)
    else drawn uuid
