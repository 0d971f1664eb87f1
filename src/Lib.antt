-- ===== src/Lib.antt =====
-- A verification library for sing-xhttp, a transport that carries a byte stream in HTTP requests.
--
-- The program. A client (xhttp/client.go) takes a connection from a pool (xhttp/xmux.go), writes
-- its upload as numbered POSTs that an accumulator cuts (xhttp/batch.go), and the server
-- (xhttp/server.go) puts them back in order (xhttp/upload_queue.go). Where the session ID and the
-- number stand in a request, and which sizes hold, is decided once from the configuration
-- (xhttp/options.go, xhttp/validate.go, xhttp/meta.go). Towards an HTTP/2 server the client's
-- frames pass through an adapter that makes them look like Chromium's (xhttp/h2_conn.go).
--
-- The files.
--   Common: numbers, lists, byte strings and the string functions that the parts share.
--   Queue: xhttp/upload_queue.go. `UploadQueue` is the struct; the channel is the list `pushed`, the
--     closed channel `done` a flag. `push`, `close` and `read` are the methods. A select with both
--     cases ready takes a choice from its caller; a Read that blocks is the result `waiting`, and
--     `read_wait` is what it does when it is woken. Queue.Heap is container/heap on the packets.
--     The fuel of a Read is `rounds`: each round takes a packet out of the channel or drops one.
--   Batch: xhttp/batch.go. `BatchAccumulator` is the struct; a wait on the condition variable is a
--     result, and the call is made again when it is woken.
--   Options: xhttp/options.go and rangeRand of xhttp/util.go, with int32 wrap-around;
--     Options.Validate: xhttp/validate.go, error by error; its child Rules says without reference to
--     the code what a configuration has to meet.
--   Codec: xhttp/meta.go, the codec made of a configuration; Codec.Request is what it uses of
--     net/http; Codec.Meta is how the meta fields are written and read, through the cookies of
--     Codec.Cookie, which net/http cleans when it writes them and checks when it reads them.
--   H2: xhttp/h2_conn.go. Frame, VarInt, HeaderOrder, Settings, Streams and HeaderBlock are its
--     parts, Transform what becomes of one frame, Conn the write loop, Observe the read side. The
--     HPACK codec is a parameter with its own states. The fuel of both loops is one more than the
--     length of the buffer, since each round but the last takes a frame of nine bytes or more.
--   Xmux: xhttp/xmux.go. A connection is a number and whether it was closed; the time and the random
--     draws of a call are its arguments.
--   Grpc: xhttp/grpc.go, the framing of the stream in gRPC messages. The protobuf reader is a
--     parameter, `Protowire`; Grpc.Trip.ReadsBytes is what it documents and the code relies on.
--     A body is the bytes it has still to give, a sink tells which frame it fails at.
--   Codec.Charset, Codec.Padding, Codec.Payload: the rest of xhttp/meta.go: random strings and
--     session IDs, padding, payload chunks. Random bytes are lists of buffers, and a call that asks
--     for more of them is a result of its own. Codec.Url and Codec.Base64 are what they use of
--     net/url and encoding/base64. HPACK's Huffman length is a parameter: Padding.Tokenish.HuffmanCode
--     is what RFC 7541 says of it. Whether url.Parse accepts a text is one too. The writers of chunks
--     have the length of the text as fuel, the readers one more than the number of pairs; 150 is the
--     code's own bound on the turns that adjust a padding.
--   Session: httpSession of xhttp/server.go, one step for what a method does between two points
--     where another can come in between; `step` is executable and a run is a list of steps.
--   Server: the rest of xhttp/server.go. `serve_http` of Server.Routing gives the handler of a
--     request or its refusal, Server.Table is the session map with the sessions as places in a list,
--     Server.PacketUp is handlePacketUpPost, Server.Runs any sequence of these, Server.Download the
--     start and end of a download, the writers, and the Close of xhttp/conn.go.
--   H1: xhttp/h1_conn.go, the retry loop over what sync.Pool gives.
--   Client.Waiter, Client.Resolve, Client.Uploader: of xhttp/client.go, the body that is waited for,
--     step by step, what NewClientWithDownload settles or refuses, and the turns of
--     runPacketUploader, with what a turn draws from the accumulator, the pool and the clock as its
--     argument.
--
-- Not modelled: in xhttp/client.go the dialing of streams, a POST that fails or is cancelled, and the
-- transports,
-- in xhttp/server.go the wait loops of the two streamed uploads, listeners, QUIC and the remote
-- address, which call net/http and quic-go; the glue of xhttp/adapter.go and xhttp/register.go.
-- Locks are left out where every method holds its lock throughout: such a method is one step.
pub mod Batch
pub mod Client
pub mod Codec
pub mod Common
pub mod Grpc
pub mod H1
pub mod H2
pub mod Options
pub mod Queue
pub mod Server
pub mod Session
pub mod Xmux
