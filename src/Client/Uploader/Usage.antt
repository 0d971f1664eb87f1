-- ===== src/Client/Uploader/Usage.antt =====
-- How often each connection is taken and released over an upload.
use sing_xhttp.Common.{
  ℕ, ◌+◌, ◌%◌, ◌^◌, ◌≡◌, ◌≢◌, refl, ◌∙◌, inl, inr, false, List, [], ◌∷◌, ◌==◌, arith, if◌then◌else◌,
  Bool-cases,
}
use sing_xhttp.Client.Waiter.Once.{count}
use sing_xhttp.Client.Uploader.{
  Uploader, Turn, rotates, dial, rotate, send_chunk, upload, close_all,
}

-- One for the connection that is bound.
abbrev one_for : ℕ → ℕ → ℕ
one_for z k = if z == k then 1 else 0

-- Only the bound connection is taken once more than it is released.
abbrev Held : Uploader → Type 0
Held u = (k : ℕ) → count k u.taken ≡ count k u.released + one_for u.bound k

dial-Held : (x : ℕ) → Held (dial x)
unfolding dial
dial-Held x k = ground arith

rotate-Held : (t : Turn) (u : Uploader) → Held u → Held (rotate t u)
unfolding rotate
rotate-Held t u h k = elim (Bool-cases (rotates t)) [
  | inl e ↦ rw e (ground (arith, h k))
  | inr e ↦ rw e (h k)
]

send_chunk-Held : (t : Turn) (u : Uploader) → Held u → Held (send_chunk t u)
unfolding send_chunk
send_chunk-Held t u h k = rotate-Held t (record u { seq = (u.seq + 1) % 2 ^ 64 }) h k

upload-Held : (ts : List Turn) (u : Uploader) → Held u → Held (upload ts u)
unfolding upload
upload-Held [] u h = h
upload-Held (t ∷ ts) u h = upload-Held ts (send_chunk t u) (send_chunk-Held t u h)

rotate-closed : (t : Turn) (u : Uploader) → (rotate t u).closed ≡ u.closed
unfolding rotate
rotate-closed t u = elim (Bool-cases (rotates t)) [ inl e ↦ rw e refl | inr e ↦ rw e refl ]

upload-closed : (ts : List Turn) (u : Uploader) → (upload ts u).closed ≡ u.closed
unfolding upload send_chunk
upload-closed [] u = refl
upload-closed (t ∷ ts) u =
    upload-closed ts (send_chunk t u) ∙ rotate-closed t (record u { seq = (u.seq + 1) % 2 ^ 64 })

not_closed : (x : ℕ) (ts : List Turn) → (upload ts (dial x)).closed ≡ false
unfolding dial
not_closed x ts = upload-closed ts (dial x)

closes : (x : ℕ) (u : Uploader) → u.closed ≡ false → (close_all x u).released ≡ x ∷ u.released
unfolding close_all
closes x u e = rw e refl

still_taken : (x : ℕ) (u : Uploader) → u.closed ≡ false → (close_all x u).taken ≡ u.taken
unfolding close_all
still_taken x u e = rw e refl

-- After an upload that began on one connection and, by rotation, ended on another: when everything is
-- closed, the connection that it ended on has been taken once more than released, and the one that it
-- began on has been released once more than taken.
pub rotation_leaks :
    (x : ℕ) (ts : List Turn)
    → (upload ts (dial x)).bound ≢ x
    → (let done = close_all x (upload ts (dial x)) in
        let z = (upload ts (dial x)).bound in
        (count z done.taken ≡ count z done.released + 1)
        × (count x done.released ≡ count x done.taken + 1))
rotation_leaks x ts moved =
    let u = upload ts (dial x) in
    let open_u = not_closed x ts in
    let held = upload-Held ts (dial x) (dial-Held x) in
    rw (closes x u open_u, still_taken x u open_u)
      (ground (arith, held u.bound, moved), ground (arith, held x, moved))
