-- ===== src/H2/Conn.antt =====
-- xhttp/h2_conn.go: the adapter itself, and the loop of its writes.
pub mod Rounds
pub mod Progress
pub mod Loop
pub mod Chunks
use sing_xhttp.Common.{
  ℕ, zero, suc, ◌+◌, ◌-◌, ◌*◌, ◌/◌, ◌^◌, Bool, true, false, Option, none, some, List, [], ◌∷◌, ◌++◌,
  ◌==◌, leb, ltb, not, ◌&&◌, ◌||◌, if◌then◌else◌, length, take, drop, min,
}
use sing_xhttp.Common.Text.{Bytes, codes}
use sing_xhttp.Common.Strings.{has_prefix, bytes_eq}
use sing_xhttp.H2.Frame.{
  FrameLen, too_long, incomplete, complete, buffered_frame_len, byte_at, stream_id_of, has_flag,
  build_h2_frame, end_stream, ack, end_headers, data_frame, headers_frame, rst_stream_frame,
  settings_frame, continuation_frame, max_header_block, max_frame_len, clear_flag,
}
use sing_xhttp.H2.VarInt.{hpack_table_size_updates}
use sing_xhttp.H2.HeaderOrder.{HeaderField, chromium_header_order}
use sing_xhttp.H2.Settings.{chromium_initial_settings}
use sing_xhttp.H2.Streams.{
  Streams, note_local_headers, note_local_end, note_remote_end, remove_stream, parent_stream,
}
use sing_xhttp.H2.Transform.{Framing, transform_write_frame}
use sing_xhttp.H2.HeaderBlock.{
  Hpack, OutgoingHeaderBlock, build_header_frames, unpad, take_priority, default_priority,
}

-- chromeH2Conn
pub record ChromeH2Conn (D E : Type 0) : Type 0 where
  pub write_buf : Bytes
  pub broken : Bool
  pub preface_written : Bool
  pub read_buf : Bytes
  pub framing : Framing D E

-- http2.ClientPreface: PRI * HTTP/2.0, SM
abbrev pub client_preface : Bytes
client_preface =
    codes "PRI * HTTP/2.0" ++ (13 ∷ 10 ∷ 13 ∷ 10 ∷ b'S' ∷ b'M' ∷ 13 ∷ 10 ∷ 13 ∷ 10 ∷ [])

-- newChromeH2Conn, for a connection that is not wrapped yet.
unfoldable pub new_chrome_h2_conn : {D E : Type 0} → D → E → ChromeH2Conn D E
new_chrome_h2_conn d e = record {
  write_buf = [];
  broken = false;
  preface_written = false;
  read_buf = [];
  framing = record {
    settings_sent = false;
    header_block = none;
    source_decoder = d;
    target_encoder = e;
    peer_max_frame_size = 16384;
    streams = record { states = []; order = [] };
  };
}

-- What one round of the loop of Write does: it ends, it fails, or it goes on with more output.
pub data Turn (D E : Type 0) : Type 0 where
  stopped : ChromeH2Conn D E → Bytes → Turn D E
  failed : ChromeH2Conn D E → Turn D E
  next : ChromeH2Conn D E → Bytes → Turn D E

pub data WriteResult : Type 0 where
  written : ℕ → WriteResult
  write_error : WriteResult

module _ {D E : Type 0} (hpack : Hpack D E) where
  -- The round behind the preface.
  unfoldable pub frame_turn : ChromeH2Conn D E → Bytes → Turn D E
  frame_turn c output = elim (buffered_frame_len c.write_buf) [
    | too_long ↦ failed c
    | incomplete ↦ stopped c output
    | complete n ↦
        let (f, transformed) = transform_write_frame hpack c.framing (take n c.write_buf) in
        elim transformed [
          | none ↦ failed (record c { framing = f })
          | some bytes ↦
              next (record c { framing = f; write_buf = drop n c.write_buf }) (output ++ bytes)
        ]
  ]

  -- One round.
  unfoldable pub turn : ChromeH2Conn D E → Bytes → Turn D E
  turn c output =
      let n = length client_preface in
      if c.preface_written
      then frame_turn c output
      else (if ltb (length c.write_buf) n
          then (if has_prefix client_preface c.write_buf then stopped c output else failed c)
          else (if bytes_eq (take n c.write_buf) client_preface
              then frame_turn (record c { write_buf = drop n c.write_buf; preface_written = true })
                  (output ++ client_preface)
              else failed c))

  -- The loop; every round but the last takes a frame out of the buffer, so its length is enough
  -- fuel.
  unfoldable pub write_loop : ℕ → ChromeH2Conn D E → Bytes → Turn D E
  write_loop zero c output = next c output
  write_loop (suc fuel) c output = elim (turn c output) [
    | stopped c1 out ↦ stopped c1 out
    | failed c1 ↦ failed c1
    | next c1 out ↦ write_loop fuel c1 out
  ]

  -- Write on a connection whose own Write takes everything, or fails if `sink_fails`: the state
  -- after it, the bytes that reach the connection, and the result.
  unfoldable pub write : Bool → ChromeH2Conn D E → Bytes → ChromeH2Conn D E × Bytes × WriteResult
  write sink_fails c p =
      if c.broken
      then (c, [], write_error)
      else (let c0 : ChromeH2Conn D E = record c { write_buf = c.write_buf ++ p } in
          elim (write_loop (suc (length c0.write_buf)) c0 []) [
            | stopped c1 out ↦
                if sink_fails && ltb 0 (length out)
                then (record c1 { broken = true }, [], write_error)
                else (c1, out, written (length p))
            | failed c1 ↦ (record c1 { broken = true }, [], write_error)
            | next c1 out ↦ (record c1 { broken = true }, [], write_error)
          ])
