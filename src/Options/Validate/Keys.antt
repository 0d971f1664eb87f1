-- ===== src/Options/Validate/Keys.antt =====
-- The keys of the session ID and the sequence number, as Validate compares them and as the rules do.
use sing_xhttp.Common.{◌≡◌, ◌≢◌, ◌↔◌, refl, ap, sym, ◌∙◌, inl, inr, true, false, Bool-cases}
use sing_xhttp.Common.Text.{String, str_eq, str_eq_iff}
use sing_xhttp.Common.Strings.{one_of, OneOf}
use sing_xhttp.Options.{Options}
use sing_xhttp.Options.Validate.{or_path, default_key, session_key_of, seq_key_of, meta_placements}
use sing_xhttp.Options.Validate.Rules.{KeysApart, key_or}

-- What the code checks.
abbrev pub KeysDiffer : Options → Type 0
KeysDiffer o =
    or_path o.session_placement ≢ "path"
    → or_path o.session_placement ≡ or_path o.seq_placement
    → session_key_of o ≢ seq_key_of o

-- The default key of each placement.
key_header : (set h q : String) → default_key set "header" h q ≡ key_or set h
unfolding default_key
key_header set h q = elim (Bool-cases (str_eq set "")) [ inl e ↦ rw e refl | inr e ↦ rw e refl ]

key_query : (set h q : String) → default_key set "query" h q ≡ key_or set q
unfolding default_key one_of
key_query set h q = elim (Bool-cases (str_eq set "")) [ inl e ↦ rw e refl | inr e ↦ rw e refl ]

key_cookie : (set h q : String) → default_key set "cookie" h q ≡ key_or set q
unfolding default_key one_of
key_cookie set h q = elim (Bool-cases (str_eq set "")) [ inl e ↦ rw e refl | inr e ↦ rw e refl ]

placed : (p : String) → str_eq p "" ≡ false → or_path p ≡ p
unfolding or_path
placed p e = rw e refl

unplaced : (p : String) → str_eq p "" ≡ true → or_path p ≡ "path"
unfolding or_path
unplaced p e = rw e refl

-- The same place, other than the path, is the same text.
same_place : (s t : String) → or_path s ≢ "path" → or_path s ≡ or_path t → (or_path s ≡ s) × (t ≡ s)
same_place s t off e = elim (Bool-cases (str_eq s "")) [
  | inl k ↦ absurd (off (unplaced s k))
  | inr k ↦ elim (Bool-cases (str_eq t "")) [
    | inl l ↦ absurd (off (e ∙ unplaced t l))
    | inr l ↦ (placed s k, sym (placed t l) ∙ sym e ∙ placed s k)
  ]
]

abbrev pub AllKeysApart : Options → Type 0
AllKeysApart o =
    KeysApart o "header" "X-Session" "X-Seq"
    × (KeysApart o "query" "x_session" "x_seq" × KeysApart o "cookie" "x_session" "x_seq")

module _ (o : Options) (place : String) (pick : String → String → String)
    (named : str_eq place "" ≡ false) (off_path : place ≢ "path")
    (key : (set h q : String) → default_key set place h q ≡ key_or set (pick h q)) where
  session_key :
      o.session_placement ≡ place
      → session_key_of o ≡ key_or o.session_key (pick "X-Session" "x_session")
  unfolding session_key_of
  session_key e =
      ap (λ p. default_key o.session_key p "X-Session" "x_session")
        (ap or_path e ∙ placed place named)
      ∙ key o.session_key "X-Session" "x_session"

  seq_key : o.seq_placement ≡ place → seq_key_of o ≡ key_or o.seq_key (pick "X-Seq" "x_seq")
  unfolding seq_key_of
  seq_key e =
      ap (λ p. default_key o.seq_key p "X-Seq" "x_seq") (ap or_path e ∙ placed place named)
      ∙ key o.seq_key "X-Seq" "x_seq"

  abbrev ApartHere : Type 0
  ApartHere = KeysApart o place (pick "X-Session" "x_session") (pick "X-Seq" "x_seq")

  differ_apart : KeysDiffer o → ApartHere
  differ_apart differ e k same =
      let here = ap or_path e ∙ placed place named in
      differ (λ p. off_path (sym here ∙ p)) (here ∙ sym (ap or_path k ∙ placed place named))
        (session_key e ∙ same ∙ sym (seq_key k))

  apart_differ : o.session_placement ≡ place → ApartHere → KeysDiffer o
  apart_differ e apart off same clash =
      let (_, seq_too) = same_place o.session_placement o.seq_placement off same in
      apart e (seq_too ∙ e) (sym (session_key e) ∙ clash ∙ seq_key (seq_too ∙ e))

differs : (s : String) → str_eq s "path" ≡ false → s ≢ "path"
differs s e k = let both : true ≡ false = sym ((str_eq_iff s "path").1 k) ∙ e in cc

abbrev first : String → String → String
first h q = h

abbrev second : String → String → String
second h q = q

-- With a placement that is known, the two say the same.
pub keys_iff :
    (o : Options) → OneOf o.session_placement meta_placements → KeysDiffer o ↔ AllKeysApart o
keys_iff o place = (
  (λ d. (
    differ_apart o "header" first refl (differs "header" refl) key_header d,
    (
      differ_apart o "query" second refl (differs "query" refl) key_query d,
      differ_apart o "cookie" second refl (differs "cookie" refl) key_cookie d,
    ),
  )),
  λ apart. elim place [
    | inl e ↦ λ off. absurd (off (ap or_path e ∙ unplaced "" refl))
    | inr (inl e) ↦ λ off. absurd (off (ap or_path e ∙ placed "path" refl))
    | inr (inr (inl e)) ↦
        apart_differ o "query" second refl (differs "query" refl) key_query e apart.1.0
    | inr (inr (inr (inl e))) ↦
        apart_differ o "header" first refl (differs "header" refl) key_header e apart.0
    | inr (inr (inr (inr (inl e)))) ↦
        apart_differ o "cookie" second refl (differs "cookie" refl) key_cookie e apart.1.1
    | inr (inr (inr (inr (inr x)))) ↦ elim x [ ]
  ],
)
