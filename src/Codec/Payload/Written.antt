-- ===== src/Codec/Payload/Written.antt =====
-- What the writers give: the text in numbered pairs.
use sing_xhttp.Common.{
  ℕ, zero, suc, ◌^◌, ◌≤◌, ◌<◌, ◌≡◌, ◌≢◌, refl, ap, sym, ◌∙◌, false, Option, none, some, List, [],
  ◌∷◌, ◌++◌, length, take, drop, min, arith, All, append_assoc, append-nil, length-drop,
  take-append-drop,
}
use sing_xhttp.Common.Int.{pos, is_negative}
use sing_xhttp.Common.Text.{Bytes}
use sing_xhttp.Options.{range}
use sing_xhttp.Options.RangeRand.{range_rand, range_rand_bounds}
use sing_xhttp.Codec.{Codec}
use sing_xhttp.Codec.Request.{Pairs, find, put, without, find-add_ne}
use sing_xhttp.Codec.Payload.{header_name, cookie_name, add_pair, write_chunks, concat_bytes}
use sing_xhttp.Codec.Payload.Names.{header_name-injective, cookie_name-injective}

-- Numbered pairs.
abbrev pub numbered : (ℕ → Bytes) → ℕ → List Bytes → Pairs
numbered name i [] = []
numbered name i (v ∷ vs) = (name i, v) ∷ numbered name (suc i) vs

abbrev pub AreFull : List Bytes → Type 0
AreFull = All (λ v. v ≢ [])

-- No chunk of this number or a later one is there.
abbrev pub Free : (ℕ → Bytes) → ℕ → Pairs → Type 0
Free name i m = (j : ℕ) → i ≤ j → find (name j) m ≡ none

-- Different numbers have different names, and a free name is added behind.
pub record Naming (name : ℕ → Bytes) (place : Bytes → Bytes → Pairs → Pairs) : Type 0 where
  pub injective : (i j : ℕ) → name i ≡ name j → i ≡ j
  pub adds : (k v : Bytes) (m : Pairs) → find k m ≡ none → place k v m ≡ m ++ ((k, v) ∷ [])

without-free : (k : Bytes) (m : Pairs) → find k m ≡ none → without k m ≡ m
unfolding find without
without-free k [] h = refl
without-free k ((j, v) ∷ m) h = ground (arith, without-free k m)

pub header-Naming : (c : Codec) → Naming (header_name c) put
unfolding put
header-Naming c = record {
  injective = header_name-injective c;
  adds = λ k v m h. ap (λ n. n ++ ((k, v) ∷ [])) (without-free k m h);
}

pub cookie-Naming : (c : Codec) → Naming (cookie_name c) add_pair
unfolding add_pair
cookie-Naming c = record { injective = cookie_name-injective c; adds = λ k v m h. refl }

pub length-numbered :
    (name : ℕ → Bytes) (i : ℕ) (vs : List Bytes) → length (numbered name i vs) ≡ length vs
length-numbered name i [] = refl
length-numbered name i (v ∷ vs) = ap suc (length-numbered name (suc i) vs)

module _ (c : Codec) (from to : ℕ) (sized : c.uplink_chunk_size ≡ range from to)
    (some_size : 0 < from) (lo : from < 2 ^ 31) (hi : to < 2 ^ 31) (draws : ℕ → ℕ) where
  -- Each turn takes at least one byte.
  drawn_size : (bits : ℕ) → (n : ℕ) × (range_rand c.uplink_chunk_size bits ≡ pos n) × (0 < n)
  unfolding range_rand
  drawn_size bits =
      let (n, is_n, low, high) = range_rand_bounds from to bits lo hi in
      (n, rw (sized, is_n) refl, omega arith)

  module _ (name : ℕ → Bytes) (place : Bytes → Bytes → Pairs → Pairs)
      (naming : Naming name place) where
    -- What a writer is to give: the text in numbered pairs.
    abbrev pub Written : ℕ → Bytes → Pairs → Option Pairs → Type 0
    Written i s m o =
        (vs : List Bytes) × (o ≡ some (m ++ numbered name i vs))
        × (concat_bytes vs ≡ s)
        × AreFull vs

    turn :
        (fuel i x n : ℕ) (xs : Bytes) (m : Pairs)
        → range_rand c.uplink_chunk_size (draws i) ≡ pos n
        → write_chunks c draws name place (suc fuel) i (x ∷ xs) m
          ≡ write_chunks c draws name place fuel
              (suc i)
              (drop (min n (length (x ∷ xs))) (x ∷ xs))
              (place (name i) (take (min n (length (x ∷ xs))) (x ∷ xs)) m)
    unfolding write_chunks
    turn fuel i x n xs m e = let go : is_negative (pos n) ≡ false = ground arith in rw (e, go) refl

    later-Free :
        (i : ℕ) (v : Bytes) (m : Pairs)
        → Free name i m
        → Free name (suc i) (m ++ ((name i, v) ∷ []))
    later-Free i v m free j h =
        find-add_ne (name j) (name i) v m (λ e. omega (arith, naming.injective j i e))
        ∙ free j (omega arith)

    take_full : (n x : ℕ) (xs : Bytes) → 0 < n → take n (x ∷ xs) ≢ []
    take_full zero x xs h = absurd (omega arith)
    take_full (suc n) x xs h = λ e. cc

    pub written :
        (fuel i : ℕ) (s : Bytes) (m : Pairs)
        → length s ≤ fuel
        → Free name i m
        → Written i s m (write_chunks c draws name place fuel i s m)
    unfolding write_chunks concat_bytes
    written fuel i [] m h free = ([], ap some (sym (append-nil m)), refl, tt)
    written zero i (x ∷ xs) m h free = absurd (omega arith)
    written (suc fuel) i (x ∷ xs) m h free =
        let (size, is_size, some_n) = drawn_size (draws i) in
        let n = min size (length (x ∷ xs)) in
        let v = take n (x ∷ xs) in
        let added = naming.adds (name i) v m (free i (omega arith)) in
        let (vs, is_vs, all, full) =
          written fuel (suc i) (drop n (x ∷ xs)) (m ++ ((name i, v) ∷ []))
            (omega (arith, length-drop n (x ∷ xs))) (later-Free i v m free) in
        (
          v ∷ vs,
          turn fuel i x size xs m is_size
              ∙ ap (write_chunks c draws name place fuel (suc i) (drop n (x ∷ xs))) added
              ∙ is_vs
              ∙ ap some (append_assoc m ((name i, v) ∷ []) (numbered name (suc i) vs)),
          ap (◌++◌ v) all ∙ take-append-drop n (x ∷ xs),
          (take_full n x xs (omega arith), full),
        )
