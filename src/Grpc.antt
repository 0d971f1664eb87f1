-- ===== src/Grpc.antt =====
-- xhttp/grpc.go: messages of the schema Hunk { bytes data = 1; } in gRPC frames. The protobuf reader
-- is google.golang.org/protobuf/encoding/protowire: a parameter.
pub mod Trip
mod Tests
use sing_xhttp.Common.{
  ℕ, zero, suc, ◌+◌, ◌-◌, ◌*◌, ◌/◌, ◌%◌, ◌^◌, Bool, true, false, ◌&&◌, ◌||◌, not, Option, none,
  some, List, [], ◌∷◌, ◌++◌, ◌==◌, leb, ltb, if◌then◌else◌, length, take, drop, min,
}
use sing_xhttp.Common.Text.{Bytes, codes}
use sing_xhttp.Common.Strings.{bytes_eq, has_prefix, trim_left, trim_right}

abbrev pub max_message_size : ℕ
max_message_size = 4 * 2 ^ 20

abbrev pub write_chunk_size : ℕ
write_chunk_size = 64 * 2 ^ 10

-- grpcPath
unfoldable pub grpc_path : Bytes → Bytes
grpc_path base_path =
    let trimmed = trim_right b'/' (trim_left b'/' base_path) in
    let service = if leb (length trimmed) 0 then codes "xhttp" else trimmed in
    b'/' ∷ service ++ codes "/Tun"

-- isGRPCContentType
unfoldable pub is_grpc_content_type : Bytes → Bool
is_grpc_content_type value =
    bytes_eq value (codes "application/grpc") || has_prefix value (codes "application/grpc+")

-- binary.PutUvarint, with as many groups as a uint64 can have.
unfoldable pub put_uvarint : ℕ → ℕ → Bytes
put_uvarint zero n = []
put_uvarint (suc groups) n =
    if ltb n 128 then n ∷ [] else (n % 128 + 128) ∷ put_uvarint groups (n / 128)

unfoldable pub put_be32 : ℕ → Bytes
put_be32 n = (n / 2 ^ 24 % 2 ^ 8) ∷ (n / 2 ^ 16 % 2 ^ 8) ∷ (n / 2 ^ 8 % 2 ^ 8) ∷ (n % 2 ^ 8) ∷ []

-- One frame of grpcWriter.Write: not compressed, the length, and field 1.
unfoldable pub write_message : Bytes → Bytes
write_message content =
    let size = put_uvarint 10 (length content) in
    0 ∷ put_be32 (1 + length size + length content) ++ (10 ∷ size ++ content)

-- What the body makes of the i-th frame that is written to it: nothing, or an error.
abbrev pub Sink : Type 0 → Type 0
Sink E = ℕ → Option E

-- The loop of grpcWriter.Write from the i-th frame on: the frames that went out, the count, and the
-- error. Each round takes at least one byte, so the length of `p` is enough fuel.
unfoldable pub write_chunks : {E : Type 0} → Sink E → ℕ → ℕ → ℕ → Bytes → Bytes × ℕ × Option E
write_chunks sink zero i written p = ([], written, none)
write_chunks sink (suc fuel) i written [] = ([], written, none)
write_chunks sink (suc fuel) i written (b ∷ bs) =
    let size = min (length (b ∷ bs)) write_chunk_size in
    let (out, total, err) = write_chunks sink fuel (suc i) (written + size) (drop size (b ∷ bs)) in
    elim (sink i) [
      | some e ↦ ([], written, some e)
      | none ↦ (write_message (take size (b ∷ bs)) ++ out, total, err)
    ]

-- grpcWriter; net.ErrClosed is `writer_closed`.
pub record GrpcWriter (E : Type 0) : Type 0 where
  pub closed : Bool
  pub err : Option E

pub data WriterError (E : Type 0) : Type 0 where
  writer_closed : WriterError E
  sink_error : E → WriterError E

unfoldable pub settle_write :
    {E : Type 0}
    → GrpcWriter E
    → Bytes × ℕ × Option E
    → GrpcWriter E × Bytes × ℕ × Option (WriterError E)
settle_write w (out, n, none) = (w, out, n, none)
settle_write w (out, n, some e) = (record w { err = some e }, out, n, some (sink_error e))

-- (*grpcWriter).Write: the writer after it, what reached the body, the count and the error.
unfoldable pub write :
    {E : Type 0} → Sink E → GrpcWriter E → Bytes → GrpcWriter E × Bytes × ℕ × Option (WriterError E)
write sink w p = if w.closed then (w, [], 0, some writer_closed) else (elim w.err [
  | some e ↦ (w, [], 0, some (sink_error e))
  | none ↦ settle_write w (write_chunks sink (length p) 0 0 p)
])

-- (*grpcWriter).Close: whether the body is closed by it, and the writer after it.
unfoldable pub close : {E : Type 0} → GrpcWriter E → Bool × GrpcWriter E
close w = (not w.closed, record w { closed = true })

-- protowire: the number and the type of a tag, the content of a length-delimited field, and the
-- size of any other field; with the number of bytes taken. `none` is a negative count.
pub record Protowire : Type 0 where
  pub consume_tag : Bytes → Option (ℕ × ℕ × ℕ)
  pub consume_bytes : Bytes → Option (Bytes × ℕ)
  pub consume_field_value : ℕ → ℕ → Bytes → Option ℕ

pub data MessageError : Type 0 where
  end_of_body unexpected_eof compressed too_big bad_tag bad_field : MessageError

pub data Fields : Type 0 where
  fields_fail : MessageError → Fields
  fields_ok : Bytes → Fields

module _ (wire : Protowire) where
  -- The loop of readMessage over the fields; the last field 1 stays in the cache. A tag is at least
  -- one byte, so the length of the message is enough fuel.
  unfoldable pub read_fields : ℕ → Bytes → Bytes → Fields
  read_fields fuel cache [] = fields_ok cache
  read_fields zero cache (b ∷ bs) = fields_fail bad_tag
  read_fields (suc fuel) cache (b ∷ bs) = elim (wire.consume_tag (b ∷ bs)) [
    | none ↦ fields_fail bad_tag
    | some (number, wire_type, n) ↦
        let message = drop n (b ∷ bs) in
        if number == 1 && wire_type == 2
        then (elim (wire.consume_bytes message) [
          | none ↦ fields_fail bad_field
          | some (content, k) ↦ read_fields fuel content (drop k message)
        ])
        else (elim (wire.consume_field_value number wire_type message) [
          | none ↦ fields_fail bad_field
          | some k ↦ read_fields fuel cache (drop k message)
        ])
  ]

  -- readMessage on the bytes that the body has still to give: the cache and the rest of the body.
  unfoldable pub read_message : Bytes → Bytes → Fields × Bytes
  read_message cache (flag ∷ a ∷ b ∷ c ∷ d ∷ body) =
      let size = a * 2 ^ 24 + b * 2 ^ 16 + c * 2 ^ 8 + d in
      if not (flag == 0)
      then (fields_fail compressed, body)
      else (if ltb max_message_size size
          then (fields_fail too_big, body)
          else (if ltb (length body) size
              then (fields_fail unexpected_eof, [])
              else (read_fields size cache (take size body), drop size body)))
  read_message cache [] = (fields_fail end_of_body, [])
  read_message cache _ = (fields_fail unexpected_eof, [])

-- grpcReader, with what is left of its body; what it returns.
pub record GrpcReader : Type 0 where
  pub body : Bytes
  pub cache : Bytes
  pub err : Option MessageError
  pub reader_closed : Bool

pub data ReadResult : Type 0 where
  got : Bytes → ReadResult
  read_closed : ReadResult
  read_error : MessageError → ReadResult

module _ (wire : Protowire) where
  -- The loop of Read that fills the cache. A message takes at least five bytes of the body, so its
  -- length is enough fuel.
  unfoldable pub fill : ℕ → GrpcReader → GrpcReader
  fill zero r = r
  fill (suc fuel) r =
      let (fields, body) = read_message wire r.cache r.body in
      if ltb 0 (length r.cache) then r else (elim fields [
        | fields_fail e ↦ record r { err = some e; body = body }
        | fields_ok content ↦ fill fuel (record r { cache = content; body = body })
      ])

  -- (*grpcReader).Read into a buffer of `size` bytes.
  unfoldable pub read : GrpcReader → ℕ → ReadResult × GrpcReader
  read r size =
      let full = fill (suc (length r.body)) r in
      if r.reader_closed then (read_closed, r) else (elim r.err [
        | some e ↦ (read_error e, r)
        | none ↦ if size == 0 then (got [], r) else (elim full.err [
          | some e ↦ (read_error e, full)
          | none ↦ (got (take size full.cache), record full { cache = drop size full.cache })
        ])
      ])

-- finish: the trailer's status is 13 after any error but the end of the body.
unfoldable pub finish_status : GrpcReader → ℕ
finish_status r = elim r.err [ none ↦ 0 | some end_of_body ↦ 0 | some _ ↦ 13 ]

-- What grpcResponseBody.Read makes of the end of the body, by the status in the trailer and the one
-- in the header.
pub data EndStatus : Type 0 where
  clean missing_status : EndStatus
  failed_status : Bytes → EndStatus

unfoldable pub end_status : Bytes → Bytes → EndStatus
end_status trailer header =
    let status = if leb (length trailer) 0 then header else trailer in
    if leb (length status) 0
    then missing_status
    else (if bytes_eq status (codes "0") then clean else failed_status status)
