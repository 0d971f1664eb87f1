-- ===== src/Codec/Meta/Trip.antt =====
-- The server reads the session ID and the sequence number that the client wrote.
pub mod Fields
mod Path
use sing_xhttp.Common.{
  ℕ, ◌≡◌, refl, ap, append-nil, sym, ◌∙◌, ◌≢◌, ◌⊎◌, inl, inr, Bool, true, false, Option, none, some,
  List, [], ◌||◌, ◌∷◌, ◌++◌, arith, if◌then◌else◌, All,
}
use sing_xhttp.Common.Text.{Bytes, String, codes, str_eq, str_eq_iff}
use sing_xhttp.Common.Strings.{OneOf, Lacks, ends_with, has_prefix, has_prefix-append}
use sing_xhttp.Codec.{Codec}
use sing_xhttp.Codec.Cookie.{is_name}
use sing_xhttp.Codec.Cookie.Sent.{IsVisible}
use sing_xhttp.Codec.Request.{Request, value_or_empty, find, put, find-put_self}
use sing_xhttp.Codec.Meta.{
  apply_field, apply_meta, extract_field, extract_meta, path_segments, take_segment, is_empty,
  append_to_path,
}
use Fields.{
  keyed, name_at, held_at, extract-held, held-apply_self, held-apply_ne, path-apply, keyed-ne-path,
}
use Path.{joined, segments, append_first, append_second, path_segments-joined, path_segments-base}

abbrev pub placements : List String
placements = "path" ∷ keyed

-- A request on the base path that does not hold the two fields yet, and a codec that files them
-- apart.
pub record Ready (c : Codec) (r : Request) : Type 0 where
  pub session_place : OneOf c.session_placement placements
  pub seq_place : OneOf c.seq_placement placements
  pub base : ends_with c.base_path b'/' ≡ true
  pub start : r.path ≡ c.base_path
  pub apart :
      c.session_placement ≢ "path"
      → c.session_placement ≡ c.seq_placement
      → name_at c.session_placement c.session_key ≢ name_at c.seq_placement c.seq_key
  pub session_cookie : c.session_placement ≡ "cookie" → is_name (codes c.session_key) ≡ true
  pub seq_cookie : c.seq_placement ≡ "cookie" → is_name (codes c.seq_key) ≡ true
  pub free_session : held_at r c.session_placement c.session_key ≡ none
  pub free_seq : held_at r c.seq_placement c.seq_key ≡ none

module _ (c : Codec) (r : Request) (ready : Ready c r) where
  abbrev with_session : Bytes → Request
  with_session sid = apply_field r c.session_placement c.session_key sid

  apart_back :
      OneOf c.seq_placement keyed
      → c.seq_placement ≡ c.session_placement
      → name_at c.seq_placement c.seq_key ≢ name_at c.session_placement c.session_key
  apart_back k e same =
      ready.apart (λ p. keyed-ne-path c.seq_placement k (e ∙ p)) (sym e) (sym same)

  -- A keyed session ID is held at the end.
  session_held :
      (x : ℕ) (xs seq : Bytes)
      → OneOf c.session_placement keyed
      → All IsVisible (x ∷ xs)
      → All IsVisible seq
      → held_at (apply_meta c r (x ∷ xs) seq) c.session_placement c.session_key ≡ some (x ∷ xs)
  unfolding apply_meta
  session_held x xs [] k vis vis' =
      held-apply_self r c.session_placement c.session_key (x ∷ xs) k (ready.session_cookie, vis)
        ready.free_session
  session_held x xs (y ∷ ys) k vis vis' =
      held-apply_ne (with_session (x ∷ xs)) c.session_placement c.session_key c.seq_placement
        c.seq_key (y ∷ ys) k (ready.seq_cookie, vis')
        (ready.apart (keyed-ne-path c.session_placement k))
      ∙ held-apply_self r c.session_placement c.session_key (x ∷ xs) k (ready.session_cookie, vis)
          ready.free_session

  -- So is a keyed sequence number, and none is if none was given.
  seq_held :
      (x : ℕ) (xs seq : Bytes)
      → OneOf c.seq_placement keyed
      → All IsVisible (x ∷ xs)
      → All IsVisible seq
      → value_or_empty (held_at (apply_meta c r (x ∷ xs) seq) c.seq_placement c.seq_key) ≡ seq
  unfolding apply_meta
  seq_held x xs [] k vis vis' = ap value_or_empty (
      held-apply_ne r c.seq_placement c.seq_key c.session_placement c.session_key (x ∷ xs) k
        (ready.session_cookie, vis) (apart_back k)
      ∙ ready.free_seq)
  seq_held x xs (y ∷ ys) k vis vis' = ap value_or_empty (
      held-apply_self (with_session (x ∷ xs)) c.seq_placement c.seq_key (y ∷ ys) k
        (ready.seq_cookie, vis')
        (held-apply_ne r c.seq_placement c.seq_key c.session_placement c.session_key (x ∷ xs) k
            (ready.session_cookie, vis) (apart_back k)
          ∙ ready.free_seq))

  path_first :
      (r' : Request) (placement key : String) (s : Bytes)
      → placement ≡ "path"
      → (apply_field r' placement key s).path ≡ append_to_path r'.path s
  unfolding apply_field
  path_first r' placement key s e = rw e

  -- The path of a request whose session ID stands in it.
  session_path :
      (sid : Bytes) → c.session_placement ≡ "path" → (with_session sid).path ≡ c.base_path ++ sid
  session_path sid e =
      path_first r c.session_placement c.session_key sid e
      ∙ ap (λ p. append_to_path p sid) ready.start
      ∙ append_first c.base_path sid ready.base

  both_in_path :
      (x : ℕ) (xs seq : Bytes)
      → Lacks b'/' (x ∷ xs)
      → c.session_placement ≡ "path"
      → c.seq_placement ≡ "path"
      → (apply_meta c r (x ∷ xs) seq).path ≡ c.base_path ++ joined (x ∷ xs) seq
  unfolding apply_meta
  both_in_path x xs [] h e k = session_path (x ∷ xs) e
  both_in_path x xs (y ∷ ys) h e k =
      path_first (with_session (x ∷ xs)) c.seq_placement c.seq_key (y ∷ ys) k
      ∙ ap (λ p. append_to_path p (y ∷ ys)) (session_path (x ∷ xs) e)
      ∙ append_second c.base_path (x ∷ xs) (y ∷ ys) (λ n. cc) h

  session_in_path :
      (x : ℕ) (xs seq : Bytes)
      → c.session_placement ≡ "path"
      → OneOf c.seq_placement keyed
      → (apply_meta c r (x ∷ xs) seq).path ≡ c.base_path ++ (x ∷ xs)
  unfolding apply_meta
  session_in_path x xs [] e k = session_path (x ∷ xs) e
  session_in_path x xs (y ∷ ys) e k =
      path-apply (with_session (x ∷ xs)) c.seq_placement c.seq_key (y ∷ ys) k
      ∙ session_path (x ∷ xs) e

  session_keyed :
      (sid : Bytes) → OneOf c.session_placement keyed → (with_session sid).path ≡ c.base_path
  session_keyed sid k = path-apply r c.session_placement c.session_key sid k ∙ ready.start

  seq_in_path :
      (x : ℕ) (xs seq : Bytes)
      → OneOf c.session_placement keyed
      → c.seq_placement ≡ "path"
      → (apply_meta c r (x ∷ xs) seq).path ≡ c.base_path ++ seq
  unfolding apply_meta
  seq_in_path x xs [] k e = session_keyed (x ∷ xs) k ∙ sym (append-nil c.base_path)
  seq_in_path x xs (y ∷ ys) k e =
      path_first (with_session (x ∷ xs)) c.seq_placement c.seq_key (y ∷ ys) e
      ∙ ap (λ p. append_to_path p (y ∷ ys)) (session_keyed (x ∷ xs) k)
      ∙ append_first c.base_path (y ∷ ys) ready.base

  none_in_path :
      (x : ℕ) (xs seq : Bytes)
      → OneOf c.session_placement keyed
      → OneOf c.seq_placement keyed
      → (apply_meta c r (x ∷ xs) seq).path ≡ c.base_path
  unfolding apply_meta
  none_in_path x xs [] k l = session_keyed (x ∷ xs) k
  none_in_path x xs (y ∷ ys) k l =
      path-apply (with_session (x ∷ xs)) c.seq_placement c.seq_key (y ∷ ys) l
      ∙ session_keyed (x ∷ xs) k

pub extract_here :
    (c : Codec) (r : Request) {sid seq : Bytes} {rest rest' : List Bytes}
    → has_prefix r.path c.base_path ≡ true
    → extract_field r c.session_placement c.session_key (path_segments c r) ≡ (sid, rest)
    → extract_field r c.seq_placement c.seq_key rest ≡ (seq, rest')
    → extract_meta c r ≡ some (sid, seq)
unfolding extract_meta
extract_here c r on_base e k = rw (on_base, e, k)

extract_both :
    (c : Codec) (r : Request) (t : Bytes) {sid seq : Bytes} {rest rest' : List Bytes}
    → r.path ≡ c.base_path ++ t
    → extract_field r c.session_placement c.session_key (path_segments c r) ≡ (sid, rest)
    → extract_field r c.seq_placement c.seq_key rest ≡ (seq, rest')
    → extract_meta c r ≡ some (sid, seq)
extract_both c r t p e k =
    extract_here c r (ap (λ q. has_prefix q c.base_path) p ∙ has_prefix-append c.base_path t) e k

from_path :
    (r : Request) (placement key : String) (segs : List Bytes)
    → placement ≡ "path"
    → extract_field r placement key segs ≡ take_segment segs
unfolding extract_field
from_path r placement key segs e = rw e

-- The first two of the joined segments.
take_first : (s t : Bytes) → (take_segment (segments s t)).0 ≡ s
unfolding take_segment
take_first s [] = refl
take_first s (y ∷ ys) = refl

take_second : (s t : Bytes) → (take_segment (take_segment (segments s t)).1).0 ≡ t
unfolding take_segment
take_second s [] = refl
take_second s (y ∷ ys) = refl

or_true : (b : Bool) → (b || true) ≡ true
or_true true = refl
or_true false = refl

looks_at_seq :
    (c : Codec)
    → c.seq_placement ≡ "path"
    → (str_eq c.session_placement "path" || str_eq c.seq_placement "path") ≡ true
looks_at_seq c k = rw k (or_true (str_eq c.session_placement "path"))

pair_eta : {p : Bytes × List Bytes} {a : Bytes} → p.0 ≡ a → p ≡ (a, p.1)
pair_eta {p} e = ap (λ b. (b, p.1)) e

-- The one segment of a path that holds the sequence number alone, or nothing.
lone_segment :
    (c : Codec) (r : Request) (seq : Bytes)
    → c.seq_placement ≡ "path"
    → Lacks b'/' seq
    → r.path ≡ c.base_path ++ seq
    → take_segment (path_segments c r) ≡ (seq, [])
unfolding take_segment
lone_segment c r [] k l p =
    ap take_segment (path_segments-base c r (looks_at_seq c k) (p ∙ append-nil c.base_path))
lone_segment c r (y ∷ ys) k l p =
    ap take_segment (path_segments-joined c r (looks_at_seq c k) (y ∷ ys) [] (λ n. cc) l tt p)

module _ (c : Codec) (r : Request) (ready : Ready c r) where
  -- The round trip, for each pair of places.
  trip :
      (x : ℕ) (xs seq : Bytes)
      → Lacks b'/' (x ∷ xs)
      → Lacks b'/' seq
      → All IsVisible (x ∷ xs)
      → All IsVisible seq
      → (c.session_placement ≡ "path") ⊎ OneOf c.session_placement keyed
      → (c.seq_placement ≡ "path") ⊎ OneOf c.seq_placement keyed
      → extract_meta c (apply_meta c r (x ∷ xs) seq) ≡ some (x ∷ xs, seq)
  trip x xs seq h l vis vis' (inl e) (inl k) =
      let sent = apply_meta c r (x ∷ xs) seq in
      let path = both_in_path c r ready x xs seq h e k in
      let segs = path_segments-joined c sent (rw e) (x ∷ xs) seq (λ n. cc) h l path in
      extract_both c sent (joined (x ∷ xs) seq) path
        (from_path sent c.session_placement c.session_key (path_segments c sent) e
          ∙ ap take_segment segs
          ∙ pair_eta (take_first (x ∷ xs) seq))
        (from_path sent c.seq_placement c.seq_key _ k ∙ pair_eta (take_second (x ∷ xs) seq))
  trip x xs seq h l vis vis' (inl e) (inr k) =
      let sent = apply_meta c r (x ∷ xs) seq in
      let path = session_in_path c r ready x xs seq e k in
      let segs = path_segments-joined c sent (rw e) (x ∷ xs) [] (λ n. cc) h tt path in
      extract_both c sent (x ∷ xs) path
        (from_path sent c.session_placement c.session_key (path_segments c sent) e
          ∙ ap take_segment segs
          ∙ pair_eta (take_first (x ∷ xs) []))
        (extract-held sent c.seq_placement c.seq_key _ k
          ∙ ap (λ v. (v, (take_segment (segments (x ∷ xs) [])).1))
              (seq_held c r ready x xs seq k vis vis'))
  trip x xs seq h l vis vis' (inr e) (inl k) =
      let sent = apply_meta c r (x ∷ xs) seq in
      let path = seq_in_path c r ready x xs seq e k in
      extract_both c sent seq path
        (extract-held sent c.session_placement c.session_key _ e
          ∙ ap (λ v. (value_or_empty v, path_segments c sent))
              (session_held c r ready x xs seq e vis vis'))
        (from_path sent c.seq_placement c.seq_key _ k ∙ lone_segment c sent seq k l path)
  trip x xs seq h l vis vis' (inr e) (inr k) =
      extract_both c (apply_meta c r (x ∷ xs) seq) []
        (none_in_path c r ready x xs seq e k ∙ sym (append-nil c.base_path))
        (extract-held (apply_meta c r (x ∷ xs) seq) c.session_placement c.session_key _ e
          ∙ ap (λ v. (value_or_empty v, path_segments c (apply_meta c r (x ∷ xs) seq)))
              (session_held c r ready x xs seq e vis vis'))
        (extract-held (apply_meta c r (x ∷ xs) seq) c.seq_placement c.seq_key _ k
          ∙ ap (λ v. (v, path_segments c (apply_meta c r (x ∷ xs) seq)))
              (seq_held c r ready x xs seq k vis vis'))

-- On a request for the base path that has neither field yet, and with a codec that files the two
-- apart and whose cookie keys, if a field goes into a cookie, are tokens: whatever the two
-- placements, the server reads from the client's request the session ID and the sequence number that
-- the client put there; for a download or a stream, which has no sequence number, it reads none. Both
-- texts are of visible ASCII characters other than slash, comma, semicolon, backslash and the double
-- quote, and the session ID is not empty.
pub extract-apply :
    (c : Codec) (r : Request) (sid seq : Bytes)
    → Ready c r
    → sid ≢ []
    → Lacks b'/' sid
    → Lacks b'/' seq
    → All IsVisible sid
    → All IsVisible seq
    → extract_meta c (apply_meta c r sid seq) ≡ some (sid, seq)
extract-apply c r [] seq ready some_ h l vis vis' = absurd (some_ refl)
extract-apply c r (x ∷ xs) seq ready some_ h l vis vis' =
    trip c r ready x xs seq h l vis vis' ready.session_place ready.seq_place
