-- ===== src/H2/Transform.antt =====
-- xhttp/h2_conn.go: what the adapter makes of one frame of the client.
use sing_xhttp.Common.{
  ℕ, ◌+◌, Bool, true, false, Option, none, some, List, [], ◌∷◌, ◌++◌, ◌==◌, leb, ltb, not, ◌&&◌,
  ◌||◌, if◌then◌else◌, length, drop,
}
use sing_xhttp.Common.Text.{Bytes}
use sing_xhttp.H2.Frame.{
  byte_at, stream_id_of, has_flag, build_h2_frame, end_stream, ack, end_headers, data_frame,
  headers_frame, rst_stream_frame, settings_frame, continuation_frame, max_header_block, clear_flag,
}
use sing_xhttp.H2.VarInt.{hpack_table_size_updates}
use sing_xhttp.H2.HeaderOrder.{HeaderField, chromium_header_order}
use sing_xhttp.H2.Settings.{chromium_initial_settings}
use sing_xhttp.H2.Streams.{
  Streams, note_local_headers, note_local_end, remove_stream, parent_stream,
}
use sing_xhttp.H2.HeaderBlock.{
  Hpack, OutgoingHeaderBlock, build_header_frames, unpad, take_priority, default_priority,
}

-- The fields of chromeH2Conn that the frames are about, with the states of the decoder and the
-- encoder.
pub record Framing (D E : Type 0) : Type 0 where
  pub settings_sent : Bool
  pub header_block : Option OutgoingHeaderBlock
  pub source_decoder : D
  pub target_encoder : E
  pub peer_max_frame_size : ℕ
  pub streams : Streams

module _ {D E : Type 0} (hpack : Hpack D E) where
  -- The sizes and the fields, in their order, go into the encoder.
  unfoldable pub set_sizes : E → List ℕ → E
  set_sizes e [] = e
  set_sizes e (n ∷ ns) = set_sizes (hpack.set_max_dynamic_table_size e n) ns

  unfoldable pub write_fields : E → List HeaderField → E × Bytes
  write_fields e [] = (e, [])
  write_fields e (f ∷ fs) =
      let (e1, bytes) = hpack.write_field e f in
      let (e2, more) = write_fields e1 fs in (e2, bytes ++ more)

  -- The state after a step, and what it writes; `none` is errInvalidH2Write.
  abbrev pub Outcome : Type 0
  Outcome = Framing D E × Option Bytes

  -- finishHeaderBlock, once the block was taken out of the connection.
  unfoldable pub finish_header_block : Framing D E → OutgoingHeaderBlock → Outcome
  unfolding set_sizes write_fields
  finish_header_block c block = elim (hpack_table_size_updates block.fragment) [
    | none ↦ (c, none)
    | some sizes ↦
        let (d, decoded) = hpack.decode_full c.source_decoder block.fragment in
        let c1 : Framing D E = record c { source_decoder = d } in
        elim decoded [
          | none ↦ (c1, none)
          | some fields ↦
              let (e, fragment) =
                write_fields (set_sizes c.target_encoder sizes) (chromium_header_order fields) in
              (
                record c1 { target_encoder = e },
                build_header_frames c.peer_max_frame_size block fragment,
              )
        ]
  ]

  -- The block goes on, or ends with this frame.
  unfoldable pub hold_or_finish : Framing D E → ℕ → OutgoingHeaderBlock → Outcome
  unfolding finish_header_block
  hold_or_finish c flags block =
      if has_flag flags end_headers
      then finish_header_block (record c { header_block = none }) block
      else (record c { header_block = some block }, some [])

  -- startHeaderBlock
  unfoldable pub start_header_block : Framing D E → Bytes → ℕ → ℕ → Outcome
  unfolding hold_or_finish
  start_header_block c frame id flags = elim (unpad flags (drop 9 frame)) [
    | none ↦ (c, none)
    | some (pad_length, unpadded) ↦ elim (take_priority flags unpadded) [
      | none ↦ (c, none)
      | some (own, fragment) ↦
          let (first, streams) = note_local_headers id (has_flag flags end_stream) c.streams in
          let c1 : Framing D E = record c { streams = streams } in
          let priority : Bytes =
            if first && leb (length own) 0
            then default_priority (parent_stream id streams)
            else own in
          let block : OutgoingHeaderBlock = record {
            stream_id = id;
            flags = flags;
            fragment = fragment;
            pad_length = pad_length;
            priority = priority;
            first = first;
          } in
          if ltb max_header_block (length fragment)
          then (record c1 { header_block = some block }, none)
          else hold_or_finish c1 flags block
    ]
  ]

  -- continueHeaderBlock
  unfoldable pub continue_header_block : Framing D E → Bytes → ℕ → ℕ → Outcome
  unfolding hold_or_finish
  continue_header_block c frame id flags = elim c.header_block [
    | none ↦ (c, none)
    | some block ↦
        let fragment = drop 9 frame in
        if not (block.stream_id == id)
        then (c, none)
        else (if not (clear_flag flags end_headers == 0)
            then (c, none)
            else (if ltb max_header_block (length block.fragment + length fragment)
                then (c, none)
                else hold_or_finish c flags
                    (record block { fragment = block.fragment ++ fragment })))
  ]

  abbrev is_some : Option OutgoingHeaderBlock → Bool
  is_some none = false
  is_some (some _) = true

  -- transformWriteFrame
  unfoldable pub transform_write_frame : Framing D E → Bytes → Outcome
  transform_write_frame c frame =
      let frame_type = byte_at frame 3 in
      let flags = byte_at frame 4 in
      let id = stream_id_of frame in
      if not c.settings_sent
      then (if (not (frame_type == settings_frame) || has_flag flags ack) || not (id == 0)
          then (c, none)
          else (elim (chromium_initial_settings (drop 9 frame)) [
            | none ↦ (c, none)
            | some settings ↦ (
              record c { settings_sent = true },
              some (build_h2_frame frame_type flags id settings),
            )
          ]))
      else (if is_some c.header_block && not (frame_type == continuation_frame)
          then (c, none)
          else (if frame_type == headers_frame
              then start_header_block c frame id flags
              else (if frame_type == continuation_frame
                  then continue_header_block c frame id flags
                  else (if frame_type == data_frame
                      then (
                        (if has_flag flags end_stream
                            then record c { streams = note_local_end id c.streams }
                            else c),
                        some frame,
                      )
                      else (if frame_type == rst_stream_frame
                          then (record c { streams = remove_stream id c.streams }, some frame)
                          else (c, some frame))))))
