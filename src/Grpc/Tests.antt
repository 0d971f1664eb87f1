-- ===== src/Grpc/Tests.antt =====
-- A protobuf reader that does what protowire documents, and the framing's theorems with it.
use sing_xhttp.Common.{
  ℕ, zero, suc, ◌+◌, ◌-◌, ◌*◌, ◌/◌, ◌%◌, ◌<◌, ◌≡◌, refl, ap, ◌∙◌, false, Option, none, some, [],
  ◌∷◌, ◌++◌, ltb, if◌then◌else◌, length, take, take_all, length-append, arith, Bool-cases, inl, inr,
}
use sing_xhttp.Common.Text.{Bytes}
use sing_xhttp.Grpc.{Protowire, end_of_body, put_uvarint, write}
use sing_xhttp.Grpc.Trip.{ReadsBytes, collect, open_sink, write-collect}

-- A varint of at most so many groups, and what follows it.
unfoldable get_uvarint : ℕ → Bytes → Option (ℕ × Bytes)
get_uvarint zero b = none
get_uvarint (suc groups) [] = none
get_uvarint (suc groups) (x ∷ xs) =
    let rest = get_uvarint groups xs in
    if ltb x 128
    then some (x, xs)
    else (elim rest [ none ↦ none | some (v, ys) ↦ some (x - 128 + 128 * v, ys) ])

InGroups : ℕ → ℕ → Type 0
InGroups zero n = n < 1
InGroups (suc groups) n = InGroups groups (n / 128)

get-put :
    (groups n : ℕ) (b : Bytes)
    → InGroups (suc groups) n
    → get_uvarint (suc groups) (put_uvarint (suc groups) n ++ b) ≡ some (n, b)
unfolding get_uvarint put_uvarint InGroups
get-put zero n b h = ground arith
get-put (suc groups) n b h = elim (Bool-cases (ltb n 128)) [
  | inl e ↦ rw (e, e)
  | inr e ↦
      let high : ltb (n % 128 + 128) 128 ≡ false = ground arith in
      rw (e, high, get-put groups (n / 128) b h) (ap (λ m. some (m, b)) (omega arith))
]

abbrev toy_tag : Bytes → Option (ℕ × ℕ × ℕ)
toy_tag [] = none
toy_tag (x ∷ xs) = some (x / 8, x % 8, 1)

toy_take : Bytes → Option (ℕ × Bytes) → Option (Bytes × ℕ)
toy_take b none = none
toy_take b (some (n, rest)) =
    if ltb (length rest) n then none else some (take n rest, length b - length rest + n)

abbrev toy_wire : Protowire
toy_wire = record {
  consume_tag = toy_tag;
  consume_bytes = λ b. toy_take b (get_uvarint 10 b);
  consume_field_value = λ number wire_type b. none;
}

take_whole :
    (s b : Bytes)
    → length s ≡ length b + (length s - length b)
    → toy_take s (some (length b, b)) ≡ some (b, length s)
unfolding toy_take
take_whole s b h =
    let fits : ltb (length b) (length b) ≡ false = ground arith in
    rw (fits, take_all (length b) b (omega arith)) (ap (λ n. some (b, n)) (omega (arith, h)))

toy_wire-ReadsBytes : ReadsBytes toy_wire
toy_wire-ReadsBytes = record {
  tag = λ rest. refl;
  content = λ b h.
      let field = put_uvarint 10 (length b) ++ b in
      ap (toy_take field) (get-put 9 (length b) b (unfold InGroups in omega arith))
      ∙ take_whole field b (omega (arith, length-append (put_uvarint 10 (length b)) b));
}

write-collect_example :
    let (_, out, count, err) =
      write open_sink (record { closed = false; err = none }) (7 ∷ 8 ∷ []) in
    (count ≡ 2) × (err ≡ none) × (collect toy_wire 3 out ≡ (7 ∷ 8 ∷ [], end_of_body))
write-collect_example = write-collect toy_wire toy_wire-ReadsBytes (7 ∷ 8 ∷ [])
