-- ===== src/Server/PacketUp.antt =====
-- xhttp/server.go: handlePacketUpPost, from the body of a POST to the session's queue.
pub mod Refusals
pub mod Delivered
pub mod Arrival
use sing_xhttp.Common.{
  ℕ, suc, ◌+◌, Bool, true, false, not, ◌||◌, Option, none, some, List, [], ◌∷◌, length, take,
  get_elem?, set, ltb, if◌then◌else◌,
}
use sing_xhttp.Common.Int.{ℤ, pos, pos_part, ltb_ℤ, is_positive}
use sing_xhttp.Common.Text.{Bytes, String, codes, str_eq}
use sing_xhttp.Common.Decimal.{parse_uint}
use sing_xhttp.Codec.Payload.{decode_uplink}
use sing_xhttp.Queue.Heap.{Packet}
use sing_xhttp.Queue.{UploadQueue, PushResult, sent, refused, blocked, push}
use sing_xhttp.Session.{step_or_stay, packet_up}
use sing_xhttp.Server.{Server, HttpRequest}
use sing_xhttp.Server.Table.{Entry, Sessions, upsert_session}

-- The most bytes that a POST may bring.
unfoldable pub max_of : Server → ℕ
max_of s = let to = s.max_each_post_bytes.to in if is_positive to then pos_part to else 1_000_000

-- How reading the body comes out.
pub data BodyRead : Type 0 where
  read : Bytes → BodyRead
  read_failed too_large : BodyRead

-- io.ReadFull of a body into `n` bytes.
unfoldable pub read_full : ℕ → HttpRequest → BodyRead
read_full n r = if ltb (length r.body) n then read_failed else read (take n r.body)

-- io.Copy of the body through a LimitReader of `max + 1` bytes.
unfoldable pub read_limited : ℕ → HttpRequest → BodyRead
read_limited max r =
    if ltb max (length r.body)
    then too_large
    else (if r.body_fails then read_failed else read r.body)

-- The body, where the placement takes the payload from it.
unfoldable pub read_body : Server → HttpRequest → BodyRead
read_body s r =
    let place = s.codec.uplink_data_placement in
    if str_eq place "body" || (str_eq place "auto" || str_eq place "")
    then (if is_positive r.content_length
        then read_full (pos_part r.content_length) r
        else (if str_eq place "body" || str_eq place ""
            then read_limited (max_of s) r
            else read []))
    else read []

-- How a POST is answered; `waits` is a Push that has no room yet.
pub data Answer : Type 0 where
  status : ℕ → Answer
  waits : Answer

-- What the answer makes of a Push into the session at a place; the uplink is decided before it.
abbrev pub settle_push : ℕ → Entry → Sessions → PushResult → Answer × Sessions
settle_push p e s (sent q) =
    (status 200, record s { objects = set s.objects p (record e { queue = q }) })
settle_push p e s refused = (status 409, record s { objects = set s.objects p e })
settle_push p e s blocked = (waits, record s { objects = set s.objects p e })

-- decidePacketUp, with no other method of the session in between.
abbrev pub decide_packet_up : Entry → Entry
decide_packet_up e = record e { state = step_or_stay e.state packet_up }

-- The place that upsertSession gives holds a session.
abbrev pub push_at : Bool → ℕ → Packet → Sessions → Option Entry → Answer × Sessions
push_at prefer_send p packet s none = (waits, s)
push_at prefer_send p packet s (some e) =
    settle_push p (decide_packet_up e) s (push prefer_send e.queue packet)

abbrev pub with_seq : Server → Bytes → Bool → Bytes → Sessions → Option ℕ → Answer × Sessions
with_seq s id prefer_send payload sessions none = (status 400, sessions)
with_seq s id prefer_send payload sessions (some n) =
    let (p, opened) = upsert_session s.max_buffered_posts id sessions in
    push_at prefer_send p (record { seq = n; payload = payload }) opened
      (get_elem? opened.objects p)

-- From the decoded payload on.
unfoldable pub accept_packet : Server → Bytes → Bytes → Bool → Bytes → Sessions → Answer × Sessions
accept_packet s id seq prefer_send payload sessions =
    if ltb (max_of s) (length payload)
    then (status 413, sessions)
    else with_seq s id prefer_send payload sessions (parse_uint seq)

abbrev pub after_body :
    Server → HttpRequest → Bytes → Bytes → Bool → Sessions → BodyRead → Answer × Sessions
after_body s r id seq prefer_send sessions too_large = (status 413, sessions)
after_body s r id seq prefer_send sessions read_failed = (status 400, sessions)
after_body s r id seq prefer_send sessions (read body) =
    accept_packet s id seq prefer_send (decode_uplink s.codec r.fields body) sessions

-- (*Server).handlePacketUpPost
unfoldable pub handle_packet_up :
    Server → HttpRequest → Bytes → Bytes → Bool → Sessions → Answer × Sessions
handle_packet_up s r id seq prefer_send sessions =
    if ltb_ℤ (pos (max_of s)) r.content_length
    then (status 413, sessions)
    else after_body s r id seq prefer_send sessions (read_body s r)
