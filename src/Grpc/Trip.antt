-- ===== src/Grpc/Trip.antt =====
-- What the writer frames the reader reads.
use sing_xhttp.Common.{
  ℕ, zero, suc, ◌+◌, ◌*◌, ◌/◌, ◌%◌, ◌^◌, ◌≤◌, ◌≡◌, refl, ap, ◌∙◌, false, Option, none, some, [],
  ◌∷◌, ◌++◌, ltb, length, take, drop, min, arith, length-append, length-take, length-drop, drop_all,
  take-append-drop, take-append_length, drop-append_length, Bool-cases, inl, inr,
}
use sing_xhttp.Common.Text.{Bytes}
use sing_xhttp.Grpc.{
  Protowire, MessageError, end_of_body, bad_tag, fields_ok, fields_fail, read_fields, read_message,
  write_message, write_chunks, write, settle_write, GrpcWriter, put_uvarint, put_be32,
  write_chunk_size, max_message_size, Sink,
}

-- What protowire documents of tags and of length-delimited fields: 0x0a is field 1 of that type, and
-- the length is a varint in front of the content.
pub record ReadsBytes (wire : Protowire) : Type 0 where
  pub tag : (rest : Bytes) → wire.consume_tag (10 ∷ rest) ≡ some (1, 2, 1)
  pub content :
      (b : Bytes)
      → length b ≤ write_chunk_size
      → wire.consume_bytes (put_uvarint 10 (length b) ++ b)
        ≡ some (b, length (put_uvarint 10 (length b) ++ b))

length-put_uvarint : (groups n : ℕ) → length (put_uvarint groups n) ≤ groups
unfolding put_uvarint
length-put_uvarint zero n = omega arith
length-put_uvarint (suc groups) n = elim (Bool-cases (ltb n 128)) [
  | inl e ↦ rw e (omega arith)
  | inr e ↦ rw e (omega (arith, length-put_uvarint groups (n / 128)))
]

be32_back :
    (n : ℕ)
    → n ≤ max_message_size
    → n / 2 ^ 24 % 2 ^ 8 * 2 ^ 24
        + n / 2 ^ 16 % 2 ^ 8 * 2 ^ 16
        + n / 2 ^ 8 % 2 ^ 8 * 2 ^ 8
        + n % 2 ^ 8
      ≡ n
be32_back n h = omega arith

settle_none :
    {E : Type 0} (w : GrpcWriter E) (r : Bytes × ℕ × Option E)
    → r.2 ≡ none
    → settle_write w r ≡ (w, r.0, r.1, none)
unfolding settle_write
settle_none w (out, n, none) h = refl
settle_none w (out, n, some e) h = cc

-- A body that takes everything.
abbrev pub open_sink : Sink ℕ
open_sink i = none

-- The contents of the messages of a body, and how it ends.
unfoldable pub collect : Protowire → ℕ → Bytes → Bytes × MessageError
collect wire zero body = ([], bad_tag)
collect wire (suc fuel) body =
    let (fields, rest) = read_message wire [] body in
    elim fields [
      | fields_fail e ↦ ([], e)
      | fields_ok b ↦ let (more, e) = collect wire fuel rest in (b ++ more, e)
    ]

module _ (wire : Protowire) (wire_ok : ReadsBytes wire) where
  drop_self : (b : Bytes) → drop (length b) b ≡ []
  drop_self b = drop_all (length b) b (omega arith)

  at_end : (fuel : ℕ) (b : Bytes) → read_fields wire fuel b [] ≡ fields_ok b
  unfolding read_fields
  at_end zero b = refl
  at_end (suc fuel) b = refl

  no_more :
      (fuel : ℕ) (b field : Bytes)
      → read_fields wire fuel b (drop (length field) field) ≡ fields_ok b
  unfolding read_fields
  no_more fuel b field = ap (read_fields wire fuel b) (drop_self field) ∙ at_end fuel b

  one_field :
      (fuel : ℕ) (cache b : Bytes)
      → length b ≤ write_chunk_size
      → read_fields wire (suc fuel) cache (10 ∷ put_uvarint 10 (length b) ++ b) ≡ fields_ok b
  unfolding read_fields
  one_field fuel cache b h =
      let field = put_uvarint 10 (length b) ++ b in
      rw (wire_ok.tag field, wire_ok.content b h, read_fields) (no_more fuel b field)

  -- The length in the frame is that of the message, which is within the limit.
  framed :
      (cache message rest : Bytes) (n : ℕ)
      → length message ≡ suc n
      → suc n ≤ max_message_size
      → read_message wire cache (0 ∷ put_be32 (suc n) ++ (message ++ rest))
        ≡ (read_fields wire (suc n) cache message, rest)
  unfolding read_message put_be32
  framed cache message rest n e h =
      let not_big : ltb max_message_size (suc n) ≡ false = ground (arith, h) in
      let fits : ltb (length (message ++ rest)) (suc n) ≡ false =
        ground (arith, length-append message rest, e) in
      let front : take (suc n) (message ++ rest) ≡ message =
        rw e at (take-append_length message rest) in
      let back : drop (suc n) (message ++ rest) ≡ rest =
        rw e at (drop-append_length message rest) in
      rw (be32_back (suc n) h, not_big, fits, front, back)

  -- A message of at most one chunk is read back whole, whatever the body holds behind it.
  pub read-write_message :
      (cache b rest : Bytes)
      → length b ≤ write_chunk_size
      → read_message wire cache (write_message b ++ rest) ≡ (fields_ok b, rest)
  unfolding write_message put_be32
  read-write_message cache b rest h =
      let field = put_uvarint 10 (length b) ++ b in
      let size = length (put_uvarint 10 (length b)) + length b in
      let few = length-put_uvarint 10 (length b) in
      let sum : 1 + length (put_uvarint 10 (length b)) + length b ≡ suc size = omega arith in
      ap (λ n. read_message wire cache (0 ∷ put_be32 n ++ ((10 ∷ field) ++ rest))) sum
      ∙ framed cache (10 ∷ field) rest size (ap suc (length-append (put_uvarint 10 (length b)) b))
          (omega (arith, few, h))
      ∙ ap (λ f. (f, rest)) (one_field size cache b h)

  collect_message :
      (fuel : ℕ) (b rest : Bytes)
      → length b ≤ write_chunk_size
      → collect wire (suc fuel) (write_message b ++ rest)
        ≡ (b ++ (collect wire fuel rest).0, (collect wire fuel rest).1)
  unfolding collect
  collect_message fuel b rest h =
      let whole = read-write_message [] b rest h in
      rw (ap (λ r. r.0) whole, ap (λ r. r.1) whole, collect)

  collect_end : (fuel : ℕ) → collect wire (suc fuel) [] ≡ ([], end_of_body)
  unfolding collect read_message
  collect_end fuel = refl

  chunks-collect :
      (fuel i written budget : ℕ) (p : Bytes)
      → length p ≤ fuel
      → length p ≤ budget
      → let sent = write_chunks open_sink fuel i written p in
        (collect wire (suc budget) sent.0 ≡ (p, end_of_body))
        × (sent.1 ≡ written + length p)
        × (sent.2 ≡ none)
  unfolding write_chunks
  chunks-collect zero i written budget [] h k = (collect_end budget, omega arith, refl)
  chunks-collect zero i written budget (b ∷ bs) h k = absurd (omega arith)
  chunks-collect (suc fuel) i written budget [] h k = (collect_end budget, omega arith, refl)
  chunks-collect (suc fuel) i written zero (b ∷ bs) h k = absurd (omega arith)
  chunks-collect (suc fuel) i written (suc budget) (b ∷ bs) h k =
      let p = b ∷ bs in
      let n = min (length p) write_chunk_size in
      let out = (write_chunks open_sink fuel (suc i) (written + n) (drop n p)).0 in
      let size = length-drop n p in
      let (rest_read, total, no_error) =
        chunks-collect fuel (suc i) (written + n) budget (drop n p) (omega (arith, size))
          (omega (arith, size)) in
      (
        collect_message (suc budget) (take n p) out (omega (arith, length-take n p))
            ∙ ap (λ r. (take n p ++ r.0, r.1)) rest_read
            ∙ ap (λ q. (q, end_of_body)) (take-append-drop n p),
        total ∙ omega (arith, size),
        no_error,
      )

  -- With a protobuf reader that does what it documents, and a body that takes everything: a Write
  -- reports all its bytes and no error, and the messages that it framed are read back as those
  -- bytes, in order, up to the end of the body.
  pub write-collect :
      (p : Bytes)
      → let (_, out, count, err) = write open_sink (record { closed = false; err = none }) p in
        (count ≡ length p) × (err ≡ none) × (collect wire (suc (length p)) out ≡ (p, end_of_body))
  unfolding write settle_write
  write-collect p =
      let w : GrpcWriter ℕ = record { closed = false; err = none } in
      let (read_back, count, no_error) =
        chunks-collect (length p) 0 0 (length p) p (omega arith) (omega arith) in
      let settled = settle_none w (write_chunks open_sink (length p) 0 0 p) no_error in
      (
        ap (λ r. r.2) settled ∙ count ∙ omega arith,
        ap (λ r. r.3) settled,
        ap (λ r. collect wire (suc (length p)) r.1) settled ∙ read_back,
      )
