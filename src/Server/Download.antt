-- ===== src/Server/Download.antt =====
-- xhttp/server.go: how a download starts and ends, what its connection reads from, the flushing
-- writer, and the heartbeats of a streamed upload; xhttp/conn.go: the closing of a connection.
pub mod NoSession
use sing_xhttp.Common.{
  ℕ, suc, Bool, true, false, not, ◌||◌, ◌&&◌, Option, none, some, List, [], ◌∷◌, ◌++◌, length,
  get_elem?, set, if◌then◌else◌,
}
use sing_xhttp.Common.Int.{ℤ, is_positive}
use sing_xhttp.Common.Text.{Bytes, codes}
use sing_xhttp.Codec.Request.{Pairs, put}
use sing_xhttp.Codec.Url.{is_empty}
use sing_xhttp.Session.{HttpSession, step_or_stay, connect}
use sing_xhttp.Server.{Server, HttpRequest, header_of}
use sing_xhttp.Server.Table.{Entry, Sessions, upsert_session, delete_session, close_at}

-- What a download's connection reads from: a session, or nothing at all, io.NopCloser of a nil
-- reader, whose Read panics.
pub data Reader : Type 0 where
  nil_reader : Reader
  lazy_reader : ℕ → Reader

pub record Started : Type 0 where
  pub reader : Reader
  pub headers : Pairs
  pub sessions : Sessions

-- (*httpSession).markConnected on the session at a place.
abbrev mark : Sessions → ℕ → Option Entry → Sessions
mark s p none = s
mark s p (some e) = record s {
  objects = set s.objects p (record e { state = step_or_stay e.state connect });
}

unfoldable pub mark_connected : Sessions → ℕ → Sessions
mark_connected s p = mark s p (get_elem? s.objects p)

abbrev stream_headers : Pairs → Pairs
stream_headers h =
    put (codes "Cache-Control") (codes "no-store") (put (codes "X-Accel-Buffering") (codes "no") h)

-- The headers of a streamed response.
unfoldable pub download_headers : Server → Pairs → Pairs
download_headers s h =
    if s.opts.no_sse_header
    then stream_headers h
    else put (codes "Content-Type") (codes "text/event-stream") (stream_headers h)

-- handleDownloadGet up to the connection that it hands over.
unfoldable pub start_download : Server → Bytes → Pairs → Sessions → Started
start_download s id h sessions =
    let headers = download_headers s h in
    let (p, opened) = upsert_session s.max_buffered_posts id sessions in
    if is_empty id
    then record { reader = nil_reader; headers = headers; sessions = sessions }
    else record { reader = lazy_reader p; headers = headers; sessions = mark_connected opened p }

-- The end of handleDownloadGet: the session is closed, and its ID is taken out of the map.
unfoldable pub finish_download : Bytes → Reader → Sessions → Sessions
finish_download id nil_reader s = s
finish_download id (lazy_reader p) s =
    delete_session id (record s { objects = close_at p s.objects })

-- What lazyStreamReader settles on at its first Read.
pub data Source : Type 0 where
  upload_body upload_queue at_end : Source

-- The select of (*lazyStreamReader).Read, with the choice it makes when both channels are closed;
-- `none` while neither is.
unfoldable pub choose_source : Bool → HttpSession → Option Source
choose_source prefer_uplink s =
    if s.uplink_decided && (prefer_uplink || not s.closed)
    then some (if s.has_reader then upload_body else upload_queue)
    else (if s.closed then some at_end else none)

-- The writer of a response: it flushes what it has written.
pub record FlushWriter : Type 0 where
  pub written : List Bytes
  pub flushes : ℕ
  pub has_flusher : Bool
  pub closed : Bool

pub data WriteResult : Type 0 where
  wrote : ℕ → WriteResult
  closed_pipe write_failed : WriteResult

-- (*flushWriter).Write over a writer that takes a text whole or fails.
unfoldable pub flush_write : Bool → FlushWriter → Bytes → WriteResult × FlushWriter
flush_write fails f b =
    if f.closed
    then (closed_pipe, f)
    else (if fails then (write_failed, f) else (
      wrote (length b),
      record f {
        written = f.written ++ (b ∷ []);
        flushes = if f.has_flusher then suc f.flushes else f.flushes;
      },
    ))

-- (*flushWriter).Close
unfoldable pub flush_close : FlushWriter → FlushWriter
flush_close f = record f { closed = true }

-- Whether handleStreamUpPost sends heartbeats.
unfoldable pub has_heartbeat : Server → HttpRequest → Bool → Bool
has_heartbeat s r obfs_accepted =
    (not (is_empty (header_of r "Referer")) || obfs_accepted)
    && is_positive s.stream_up_server_secs.to

-- xhttp/conn.go: what the Close of a splitConn does, in its order.
pub data Part : Type 0 where
  writer_closed reader_closed on_close : Part

pub record SplitConn : Type 0 where
  pub writer_closes : Bool
  pub reader_closes : Bool
  pub has_on_close : Bool
  pub close_once : Bool

abbrev part : Bool → Part → List Part
part true p = p ∷ []
part false p = []

-- (*splitConn).Close
unfoldable pub split_close : SplitConn → List Part × SplitConn
split_close c = if c.close_once then ([], c) else (
  part c.writer_closes writer_closed
      ++ (part c.reader_closes reader_closed ++ part c.has_on_close on_close),
  record c { close_once = true },
)
