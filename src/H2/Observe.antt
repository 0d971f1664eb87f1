-- ===== src/H2/Observe.antt =====
-- xhttp/h2_conn.go: what the adapter learns from the bytes that it reads.
use sing_xhttp.Common.{
  ℕ, zero, suc, ◌+◌, ◌*◌, ◌%◌, ◌^◌, [], ◌∷◌, ◌++◌, ◌==◌, leb, not, ◌&&◌, ◌||◌, if◌then◌else◌,
  length, take, drop,
}
use sing_xhttp.Common.Text.{Bytes}
use sing_xhttp.H2.Frame.{
  too_long, incomplete, complete, buffered_frame_len, byte_at, stream_id_of, has_flag, end_stream,
  ack, data_frame, headers_frame, rst_stream_frame, settings_frame, max_frame_len,
}
use sing_xhttp.H2.Streams.{note_remote_end, remove_stream}
use sing_xhttp.H2.Conn.{ChromeH2Conn}
use sing_xhttp.H2.Transform.{Framing}

-- The loop of observeSettings over the settings of a payload.
unfoldable pub largest_frame : ℕ → Bytes → ℕ
largest_frame max (a ∷ b ∷ c ∷ d ∷ e ∷ f ∷ payload) =
    let value = c * 2 ^ 24 + d * 2 ^ 16 + e * 2 ^ 8 + f in
    let taken = (a * 2 ^ 8 + b == 5) && (leb 16384 value && leb value max_frame_len) in
    largest_frame (if taken then value else max) payload
largest_frame max _ = max

-- observeSettings: the frame size that the peer allows after the frame.
unfoldable pub observe_settings : Bytes → ℕ → ℕ
unfolding largest_frame
observe_settings frame max =
    if has_flag (byte_at frame 4) ack || not (stream_id_of frame == 0)
    then max
    else (if not (length (drop 9 frame) % 6 == 0) then max else largest_frame max (drop 9 frame))

module _ {D E : Type 0} where
  -- One frame of observeRead.
  unfoldable pub observe_frame : Bytes → Framing D E → Framing D E
  observe_frame frame c =
      let t = byte_at frame 3 in
      let id = stream_id_of frame in
      if t == settings_frame
      then record c { peer_max_frame_size = observe_settings frame c.peer_max_frame_size }
      else (if t == headers_frame || t == data_frame
          then (if has_flag (byte_at frame 4) end_stream
              then record c { streams = note_remote_end id c.streams }
              else c)
          else (if t == rst_stream_frame
              then record c { streams = remove_stream id c.streams }
              else c))

  -- The loop of observeRead; each round takes a frame out of the buffer, so its length is enough
  -- fuel.
  unfoldable pub observe_loop : ℕ → ChromeH2Conn D E → ChromeH2Conn D E
  observe_loop zero c = c
  observe_loop (suc fuel) c = elim (buffered_frame_len c.read_buf) [
    | too_long ↦ record c { read_buf = [] }
    | incomplete ↦ c
    | complete n ↦
        let framing = observe_frame (take n c.read_buf) c.framing in
        observe_loop fuel (record c { framing = framing; read_buf = drop n c.read_buf })
  ]

  -- observeRead
  unfoldable pub observe_read : ChromeH2Conn D E → Bytes → ChromeH2Conn D E
  observe_read c p =
      let c0 : ChromeH2Conn D E = record c { read_buf = c.read_buf ++ p } in
      observe_loop (suc (length c0.read_buf)) c0
