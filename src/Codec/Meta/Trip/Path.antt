-- ===== src/Codec/Meta/Trip/Path.antt =====
-- The two fields in the path.
use sing_xhttp.Common.{
  ℕ, ◌≡◌, refl, ap, sym, ◌∙◌, ◌≢◌, ◌||◌, true, false, List, [], ◌∷◌, ◌++◌, arith, append_assoc,
  append-nil, drop-append_length,
}
use sing_xhttp.Common.Text.{Bytes, str_eq}
use sing_xhttp.Common.Strings.{
  has_prefix, trim_prefix, ends_with, split, Lacks, split-Lacks, split-append, has_prefix-append,
}
use sing_xhttp.Codec.{Codec}
use sing_xhttp.Codec.Request.{Request}
use sing_xhttp.Codec.Meta.{append_to_path, path_segments, is_empty}

pub trim_prefix-append : (p s : Bytes) → trim_prefix (p ++ s) p ≡ s
unfolding trim_prefix
trim_prefix-append p s = rw (has_prefix-append p s) (drop-append_length p s)

trim_slash : (s : Bytes) → Lacks b'/' s → trim_prefix s (b'/' ∷ []) ≡ s
unfolding trim_prefix
trim_slash [] h = refl
trim_slash (x ∷ xs) h = ground (arith, h.0)

-- Segments behind a path's last slash.
abbrev pub joined : Bytes → Bytes → Bytes
joined s [] = s
joined s (c ∷ cs) = s ++ (b'/' ∷ c ∷ cs)

ends_with-append :
    (p : Bytes) (x : ℕ) (s : Bytes) → ends_with (p ++ (x ∷ s)) b'/' ≡ ends_with (x ∷ s) b'/'
unfolding ends_with
ends_with-append [] x s = refl
ends_with-append (y ∷ []) x s = refl
ends_with-append (y ∷ z ∷ zs) x s = ends_with-append (z ∷ zs) x s

ends_with-Lacks : (s : Bytes) → Lacks b'/' s → ends_with s b'/' ≡ false
unfolding ends_with
ends_with-Lacks [] h = refl
ends_with-Lacks (x ∷ []) h = ground (arith, h.0)
ends_with-Lacks (x ∷ y ∷ ys) h = ends_with-Lacks (y ∷ ys) h.1

-- A first segment goes right behind a base path that ends in a slash.
pub append_first : (base s : Bytes) → ends_with base b'/' ≡ true → append_to_path base s ≡ base ++ s
unfolding append_to_path
append_first base [] e = sym (append-nil base)
append_first base (c ∷ cs) e = rw e

-- A second one behind a slash.
pub append_second :
    (base s t : Bytes) → s ≢ [] → Lacks b'/' s → append_to_path (base ++ s) t ≡ base ++ joined s t
unfolding append_to_path
append_second base s [] some_ h = refl
append_second base [] (c ∷ cs) some_ h = absurd (some_ refl)
append_second base (x ∷ xs) (c ∷ cs) some_ h =
    rw (ends_with-append base x xs, ends_with-Lacks (x ∷ xs) h)
      (append_assoc base (x ∷ xs) (b'/' ∷ c ∷ cs))

trim_slash-append :
    (s t : Bytes) → s ≢ [] → Lacks b'/' s → trim_prefix (s ++ t) (b'/' ∷ []) ≡ s ++ t
unfolding trim_prefix
trim_slash-append [] t some_ h = absurd (some_ refl)
trim_slash-append (x ∷ xs) t some_ h = ground (arith, h.0)

trim_slash-joined :
    (s t : Bytes) → s ≢ [] → Lacks b'/' s → trim_prefix (joined s t) (b'/' ∷ []) ≡ joined s t
trim_slash-joined s [] some_ h = trim_slash s h
trim_slash-joined s (c ∷ cs) some_ h = trim_slash-append s (b'/' ∷ c ∷ cs) some_ h

-- The segments of a joined text.
abbrev pub segments : Bytes → Bytes → List Bytes
segments s [] = s ∷ []
segments s (c ∷ cs) = s ∷ (c ∷ cs) ∷ []

split-joined : (s t : Bytes) → Lacks b'/' s → Lacks b'/' t → split b'/' (joined s t) ≡ segments s t
split-joined s [] h k = split-Lacks b'/' s h
split-joined s (c ∷ cs) h k =
    split-append b'/' s (c ∷ cs) h ∙ ap (◌∷◌ s) (split-Lacks b'/' (c ∷ cs) k)

is_empty-joined : (s t : Bytes) → s ≢ [] → is_empty (joined s t) ≡ false
is_empty-joined [] t some_ = absurd (some_ refl)
is_empty-joined (x ∷ xs) [] some_ = refl
is_empty-joined (x ∷ xs) (c ∷ cs) some_ = refl

module _ (c : Codec) (r : Request)
    (looks : (str_eq c.session_placement "path" || str_eq c.seq_placement "path") ≡ true) where
  pub path_segments-joined :
      (s t : Bytes)
      → s ≢ []
      → Lacks b'/' s
      → Lacks b'/' t
      → r.path ≡ c.base_path ++ joined s t
      → path_segments c r ≡ segments s t
  unfolding path_segments
  path_segments-joined s t some_ h k e =
      rw
        (
          looks,
          e,
          trim_prefix-append c.base_path (joined s t),
          trim_slash-joined s t some_ h,
          is_empty-joined s t some_,
        )
        (split-joined s t h k)

  pub path_segments-base : r.path ≡ c.base_path → path_segments c r ≡ []
  unfolding path_segments
  path_segments-base e =
      let whole : r.path ≡ c.base_path ++ [] = e ∙ sym (append-nil c.base_path) in
      rw (looks, whole, trim_prefix-append c.base_path []) (unfold trim_prefix has_prefix in refl)
