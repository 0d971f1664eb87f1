-- ===== src/Server/Routing/OnBase.antt =====
-- A request whose fields are read lies under the base path.
use sing_xhttp.Common.{
  ◌≡◌, refl, sym, ◌∙◌, inl, inr, Bool, true, false, ◌&&◌, none, some, Bool-cases,
}
use sing_xhttp.Common.Text.{Bytes}
use sing_xhttp.Common.Strings.{has_prefix}
use sing_xhttp.Codec.{Codec}
use sing_xhttp.Codec.Request.{Request}
use sing_xhttp.Codec.Meta.{extract_meta}

off_base :
    (c : Codec) (r : Request) → has_prefix r.path c.base_path ≡ false → extract_meta c r ≡ none
unfolding extract_meta
off_base c r e = rw e refl

pub on_base :
    (c : Codec) (r : Request) (m : Bytes × Bytes)
    → extract_meta c r ≡ some m
    → has_prefix r.path c.base_path ≡ true
on_base c r m e = elim (Bool-cases (has_prefix r.path c.base_path)) [
  | inl k ↦ k
  | inr k ↦ let different : some m ≡ none = sym e ∙ off_base c r k in absurd (cc)
]

pub and_false : (a b : Bool) → a ≡ false → (a && b) ≡ false
and_false a b e = rw e refl
