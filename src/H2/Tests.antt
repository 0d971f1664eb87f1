-- ===== src/H2/Tests.antt =====
-- Concrete runs of the adapter, and its theorems at concrete inputs. The HPACK codec is a toy: a
-- header block is one byte for each field, which is its name.
use mathlib.Core.List.{Perm}
use sing_xhttp.Common.{
  ℕ, ◌≡◌, ◌≢◌, ◌⊎◌, ◌%◌, ◌^◌, refl, true, false, none, some, List, [], ◌∷◌, ◌++◌, take, drop, arith,
}
use sing_xhttp.Common.Text.{Bytes, codes}
use sing_xhttp.H2.Frame.{
  complete, buffered_frame_len, build_h2_frame, byte_at, stream_id_of, put_uint16, put_uint32,
}
use sing_xhttp.H2.Frame.Trip.{build-read}
use sing_xhttp.H2.HeaderOrder.{HeaderField, chromium_header_order}
use sing_xhttp.H2.HeaderOrder.Classes.{by_class, header_order-by_class, header_order-perm}
use sing_xhttp.H2.Streams.{state_of, parent_stream}
use sing_xhttp.H2.Streams.Open.{
  Event, headers_sent, local_end, remote_end, run, phase, state_of-run,
}
use sing_xhttp.H2.Streams.Order.{InStep, no_streams, run-InStep, parent_stream-open, is_open}
use sing_xhttp.H2.HeaderBlock.{Hpack, OutgoingHeaderBlock, build_header_frames}
use sing_xhttp.H2.HeaderBlock.Frames.{IsBlock, read_frames, header_frames-IsBlock}
use sing_xhttp.H2.Conn.{ChromeH2Conn, client_preface, new_chrome_h2_conn, write}
use sing_xhttp.H2.Settings.{Values, value_of, chromium_settings, chromium_initial_settings}
use sing_xhttp.H2.Settings.Fixed.{encode, IsSent, IsExpected, initial_settings-encode}
use sing_xhttp.H2.Conn.Chunks.{Joins, write-append}

build-read_example :
    let buffer = build_h2_frame 9 4 7 (1 ∷ 2 ∷ []) ++ (5 ∷ []) in
    (buffered_frame_len buffer ≡ complete 11)
    × (byte_at buffer 3 ≡ 9)
    × (byte_at buffer 4 ≡ 4)
    × (stream_id_of buffer ≡ 7 % 2 ^ 31)
    × (drop 9 (take 11 buffer) ≡ 1 ∷ 2 ∷ [])
    × (drop 11 buffer ≡ 5 ∷ [])
build-read_example = build-read 9 4 7 (1 ∷ 2 ∷ []) (5 ∷ []) (omega arith)

abbrev field : Bytes → HeaderField
field n = record { name = n; value = []; sensitive = false }

abbrev go_order : List HeaderField
go_order =
    field (codes ":authority")
    ∷ field (codes ":method")
    ∷ field (codes ":path")
    ∷ field (codes "accept")
    ∷ field (codes ":protocol")
    ∷ field (codes ":scheme")
    ∷ []

header_order-by_class_example : chromium_header_order go_order ≡ by_class go_order
header_order-by_class_example = header_order-by_class go_order

header_order-perm_example : Perm go_order (chromium_header_order go_order)
header_order-perm_example = header_order-perm go_order

abbrev two_streams : List Event
two_streams = headers_sent 1 true ∷ headers_sent 3 false ∷ remote_end 1 ∷ local_end 3 ∷ []

state_of-run_example :
    state_of 1 (run no_streams two_streams).states
    ≡ phase 1 (state_of 1 no_streams.states) two_streams
state_of-run_example = state_of-run 1 two_streams no_streams

run-InStep_example : InStep (run no_streams two_streams)
run-InStep_example = run-InStep two_streams

parent_stream-open_example :
    let st = run no_streams two_streams in
    ((parent_stream 5 st ≢ 5) × (is_open (state_of (parent_stream 5 st) st.states) ≡ true))
    ⊎ ((parent_stream 5 st ≡ 0) × ((k : ℕ) → k ≢ 5 → state_of k st.states ≡ none))
parent_stream-open_example = parent_stream-open two_streams 5

abbrev long_block : OutgoingHeaderBlock
long_block = record {
  stream_id = 3;
  flags = 0;
  fragment = [];
  pad_length = 0;
  priority = 128 ∷ 0 ∷ 0 ∷ 0 ∷ 146 ∷ [];
  first = true;
}

abbrev long_fragment : Bytes
long_fragment = 1 ∷ 2 ∷ 3 ∷ 4 ∷ 5 ∷ 6 ∷ 7 ∷ 8 ∷ 9 ∷ []

header_frames-IsBlock_example :
    (out : Bytes) × (build_header_frames 6 long_block long_fragment ≡ some out)
    × IsBlock 6 long_block long_fragment (read_frames 10 out)
header_frames-IsBlock_example =
    header_frames-IsBlock 6 long_block long_fragment (omega arith) (omega arith) (omega arith)
      (omega arith)

abbrev fields_of : Bytes → List HeaderField
fields_of [] = []
fields_of (b ∷ bs) = field (b ∷ []) ∷ fields_of bs

abbrev toy_hpack : Hpack ℕ ℕ
toy_hpack = record {
  decode_full = λ d b. (d, some (fields_of b));
  set_max_dynamic_table_size = λ e n. e;
  write_field = λ e f. (e, f.name);
}

abbrev fresh_conn : ChromeH2Conn ℕ ℕ
fresh_conn = new_chrome_h2_conn 0 0

abbrev client_settings : Bytes
client_settings =
    put_uint16 2
    ++ (put_uint32 0
        ++ (put_uint16 4
            ++ (put_uint32 6291456
                ++ (put_uint16 5
                    ++ (put_uint32 16384
                        ++ (put_uint16 6
                            ++ (put_uint32 262144 ++ (put_uint16 1 ++ put_uint32 65536))))))))

abbrev first_bytes : Bytes
first_bytes =
    client_preface ++ (build_h2_frame 4 0 0 client_settings ++ build_h2_frame 1 5 1 (97 ∷ 58 ∷ []))

write-append_example :
    let first = write toy_hpack false fresh_conn (take 30 first_bytes) in
    Joins toy_hpack
      (write toy_hpack false fresh_conn (take 30 first_bytes ++ drop 30 first_bytes))
      first
      (write toy_hpack false first.0 (drop 30 first_bytes))
unfolding new_chrome_h2_conn
write-append_example =
    write-append toy_hpack fresh_conn (take 30 first_bytes) (drop 30 first_bytes) refl

abbrev go_settings : Values
go_settings = (2, 0) ∷ (4, 6291456) ∷ (5, 16384) ∷ (6, 262144) ∷ (1, 65536) ∷ []

go_settings-IsSent : IsSent [] go_settings
unfolding value_of
go_settings-IsSent = (
  omega arith,
  omega arith,
  refl,
  (
    omega arith,
    omega arith,
    refl,
    (
      omega arith,
      omega arith,
      refl,
      (omega arith, omega arith, refl, (omega arith, omega arith, refl, tt)),
    ),
  ),
)

go_settings-IsExpected : IsExpected go_settings
unfolding value_of
go_settings-IsExpected = record {
  count = refl;
  table_size = refl;
  push = refl;
  window = refl;
  frame_size = refl;
  list_size = refl;
}

initial_settings-encode_example :
    chromium_initial_settings (encode go_settings) ≡ some (encode chromium_settings)
initial_settings-encode_example =
    initial_settings-encode go_settings go_settings-IsSent go_settings-IsExpected
