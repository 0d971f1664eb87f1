-- ===== src/H2/HeaderOrder.antt =====
-- xhttp/h2_conn.go: the order in which Chromium writes the fields of a header block.
pub mod Classes
use sing_xhttp.Common.{
  ℕ, ◌≡◌, refl, Bool, true, false, ◌&&◌, ◌||◌, not, List, [], ◌∷◌, ◌++◌, ◌==◌, if◌then◌else◌, arith,
  ap, All, Bool-cases,
}
use sing_xhttp.Common.Text.{Bytes, codes, String}
use sing_xhttp.Common.Strings.{bytes_eq, has_prefix}

-- hpack.HeaderField
pub record HeaderField : Type 0 where
  pub name : Bytes
  pub value : Bytes
  pub sensitive : Bool

-- HeaderField.IsPseudo
abbrev pub is_pseudo : HeaderField → Bool
is_pseudo f = has_prefix f.name (b':' ∷ [])

-- A field and its entry in `used`.
abbrev pub Marked : Type 0
Marked = HeaderField × Bool

-- One pass: the fields that are not used yet and pass the test, and the marks after it.
unfoldable pub sweep : (HeaderField → Bool) → List Marked → List HeaderField × List Marked
sweep test [] = ([], [])
sweep test ((f, used) ∷ ms) =
    let (taken, marks) = sweep test ms in
    if not used && test f then (f ∷ taken, (f, true) ∷ marks) else (taken, (f, used) ∷ marks)

-- The passes over the names of `order`.
unfoldable pub sweep_names : List String → List Marked → List HeaderField × List Marked
unfolding sweep
sweep_names [] ms = ([], ms)
sweep_names (n ∷ ns) ms =
    let (taken, marks) = sweep (λ f. bytes_eq f.name (codes n)) ms in
    let (more, marks') = sweep_names ns marks in (taken ++ more, marks')

unfoldable pub unmarked : List HeaderField → List Marked
unmarked [] = []
unmarked (f ∷ fs) = (f, false) ∷ unmarked fs

abbrev pub chromium_order : List String
chromium_order = ":method" ∷ ":authority" ∷ ":scheme" ∷ ":path" ∷ []

-- chromiumHeaderOrder
unfoldable pub chromium_header_order : List HeaderField → List HeaderField
chromium_header_order fields =
    let (named, marks) = sweep_names chromium_order (unmarked fields) in
    let (pseudo, marks') = sweep is_pseudo marks in
    let (others, _) = sweep (λ _. true) marks' in named ++ (pseudo ++ others)
