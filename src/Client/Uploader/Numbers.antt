-- ===== src/Client/Uploader/Numbers.antt =====
-- The numbers that the posts of an upload carry.
use native.Mathlib.Nat.{mod-eq_of_lt}
use sing_xhttp.Common.{
  ℕ, suc, ◌+◌, ◌%◌, ◌^◌, ◌≤◌, ◌≡◌, refl, ap, sym, ◌∙◌, inl, inr, List, [], ◌∷◌, ◌++◌, length, map,
  arith, Bool-cases, append_assoc, append-nil,
}
use sing_xhttp.Common.Text.{Bytes}
use sing_xhttp.Client.Uploader.{Post, Uploader, Turn, rotates, dial, rotate, send_chunk, upload}

abbrev pub packet_of : Post → ℕ × Bytes
packet_of p = (p.seq, p.payload)

abbrev pub numbered : ℕ → List Turn → List (ℕ × Bytes)
numbered i [] = []
numbered i (t ∷ ts) = (i, t.chunk) ∷ numbered (suc i) ts

map-append_packets :
    (xs ys : List Post) → map packet_of (xs ++ ys) ≡ map packet_of xs ++ map packet_of ys
map-append_packets [] ys = refl
map-append_packets (x ∷ xs) ys = ap (◌∷◌ (packet_of x)) (map-append_packets xs ys)

rotate-posts : (t : Turn) (u : Uploader) → (rotate t u).posts ≡ u.posts
unfolding rotate
rotate-posts t u = elim (Bool-cases (rotates t)) [ inl e ↦ rw e refl | inr e ↦ rw e refl ]

rotate-seq : (t : Turn) (u : Uploader) → (rotate t u).seq ≡ u.seq
unfolding rotate
rotate-seq t u = elim (Bool-cases (rotates t)) [ inl e ↦ rw e refl | inr e ↦ rw e refl ]

abbrev after : Uploader → Uploader
after u = record u { seq = (u.seq + 1) % 2 ^ 64 }

send_chunk-packets :
    (t : Turn) (u : Uploader)
    → map packet_of (send_chunk t u).posts ≡ map packet_of u.posts ++ ((u.seq, t.chunk) ∷ [])
unfolding send_chunk
send_chunk-packets t u =
    map-append_packets (rotate t (after u)).posts _
    ∙ ap (λ ps. map packet_of ps ++ ((u.seq, t.chunk) ∷ [])) (rotate-posts t (after u))

send_chunk-seq : (t : Turn) (u : Uploader) → (send_chunk t u).seq ≡ (u.seq + 1) % 2 ^ 64
unfolding send_chunk
send_chunk-seq t u = rotate-seq t (after u)

upload_from :
    (ts : List Turn) (u : Uploader)
    → u.seq + length ts ≤ 2 ^ 64
    → map packet_of (upload ts u).posts ≡ map packet_of u.posts ++ numbered u.seq ts
unfolding upload
upload_from [] u h = sym (append-nil (map packet_of u.posts))
upload_from (t ∷ []) u h = send_chunk-packets t u
upload_from (t ∷ t' ∷ ts) u h =
    let next : (send_chunk t u).seq ≡ suc u.seq =
      send_chunk-seq t u ∙ mod-eq_of_lt (omega arith) ∙ omega arith in
    upload_from (t' ∷ ts) (send_chunk t u) (omega (arith, next))
    ∙ ap (λ ps. ps ++ numbered (send_chunk t u).seq (t' ∷ ts)) (send_chunk-packets t u)
    ∙ append_assoc (map packet_of u.posts) ((u.seq, t.chunk) ∷ []) _
    ∙ ap (λ i. map packet_of u.posts ++ ((u.seq, t.chunk) ∷ numbered i (t' ∷ ts))) next

no_posts : (x : ℕ) → map packet_of (dial x).posts ≡ []
unfolding dial
no_posts x = refl

-- Up to 2^64 chunks, whatever connections are rotated in: the posts of an upload carry the chunks in
-- the order in which they were drained, numbered from 0 without a gap.
pub upload-numbered :
    (x : ℕ) (ts : List Turn)
    → length ts ≤ 2 ^ 64
    → map packet_of (upload ts (dial x)).posts ≡ numbered 0 ts
unfolding dial
upload-numbered x ts h = upload_from ts (dial x) (omega arith)
