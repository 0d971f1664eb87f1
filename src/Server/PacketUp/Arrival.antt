-- ===== src/Server/PacketUp/Arrival.antt =====
-- From the client's request to the queue of its session.
use sing_xhttp.Common.{ℕ, ◌^◌, ◌≤◌, ◌<◌, ◌≡◌, ◌≢◌, Bool, true, false, [], length, set, All}
use sing_xhttp.Common.Int.{pos}
use sing_xhttp.Common.Text.{Bytes, codes}
use sing_xhttp.Common.Decimal.{decimal}
use sing_xhttp.Common.Strings.{Lacks}
use sing_xhttp.Options.{range}
use sing_xhttp.Codec.Request.{Request, canonical}
use sing_xhttp.Codec.Cookie.Sent.{IsVisible}
use sing_xhttp.Codec.Meta.{apply_meta}
use sing_xhttp.Codec.Meta.Trip.{Ready}
use sing_xhttp.Codec.Padding.Trip.{Unpadded}
use sing_xhttp.Queue.Heap.{Packet}
use sing_xhttp.Queue.Room.{with_packet}
use sing_xhttp.Server.{Server, HttpRequest, mode_allows}
use sing_xhttp.Server.Routing.{bad_host_of}
use sing_xhttp.Server.Table.{Entry, Sessions, upsert_session}
use sing_xhttp.Server.PacketUp.{max_of, decide_packet_up}

-- The POST that carries a body.
abbrev pub post_of : Bytes → Request → Bytes → HttpRequest
post_of host fields body = record {
  method = "POST";
  proto = "HTTP/1.1";
  proto_major = 1;
  host = host;
  content_length = pos (length body);
  fields = fields;
  body = body;
  body_fails = false;
}

-- The session of an ID, and the sessions with it.
abbrev pub session_of : Server → Bytes → Sessions → ℕ × Sessions
session_of s id sessions = upsert_session s.max_buffered_posts id sessions

-- The sessions after a packet has gone into the queue of a session.
abbrev pub with_pushed : ℕ → Entry → Packet → Sessions → Sessions
with_pushed p e packet s = record s {
  objects = set s.objects p (record (decide_packet_up e) { queue = with_packet e.queue packet });
}

module _ (s : Server) (host body id : Bytes) (fields : Request) (prefer : Bool)
    (sessions : Sessions) (in_body : s.codec.uplink_data_placement ≡ "body")
    (some_body : 0 < length body) (fits : length body ≤ max_of s) where
  abbrev request : HttpRequest
  request = post_of host fields body

-- What the two sides are to have in common: a server in default padding mode without gRPC framing,
-- whose mode takes packets, and a client's request for it that holds no field yet.
pub record Meets (parses : Bytes → Bool) (s : Server) (front host body id : Bytes) (base : Request)
    (from to n : ℕ) : Type 0 where
  pub default_mode : s.codec.xpad_obfs ≡ false
  pub session_name : canonical (codes s.codec.session_key) ≢ codes "Referer"
  pub seq_name : canonical (codes s.codec.seq_key) ≢ codes "Referer"
  pub padding : s.codec.xpad_range ≡ range from to
  pub some_padding : 0 < from
  pub in_order : from ≤ to
  pub int32 : to < 2 ^ 31
  pub ready : Ready s.codec base
  pub unpadded : Unpadded parses s.codec front (apply_meta s.codec base id (decimal n))
  pub named : id ≢ []
  pub one_segment : Lacks b'/' id
  pub visible : All IsVisible id
  pub right_host : bad_host_of s (post_of host base body) ≡ false
  pub plain : s.opts.grpc_framing ≡ false
  pub packets : mode_allows s "packet-up" ≡ true
  pub in_body : s.codec.uplink_data_placement ≡ "body"
  pub some_body : 0 < length body
  pub fits : length body ≤ max_of s
  pub uint64 : n < 2 ^ 64
