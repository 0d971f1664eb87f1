-- ===== src/Options/Validate/Rules.antt =====
-- The rules for a configuration, stated apart from the code of Validate: the texts that each field
-- may hold, the names that gRPC wants of a path, the keys that must differ, and the sizes.
use sing_xhttp.Common.{
  ℕ, ◌≡◌, ◌≢◌, ◌≤◌, ◌⊎◌, Bool, true, false, Option, none, some, [], ◌∷◌, if◌then◌else◌,
}
use sing_xhttp.Common.Int.{pos, ◌≤ℤ◌}
use sing_xhttp.Common.Text.{Bytes, String, str_eq}
use sing_xhttp.Common.Strings.{OneOf}
use sing_xhttp.Options.{Range, XmuxConfig, Options}

-- A letter or an underscore; behind the first character of a name also a digit.
abbrev pub IsNameByte : Bool → ℕ → Type 0
IsNameByte later c =
    ((b'a' ≤ c) × (c ≤ b'z'))
    ⊎ (((b'A' ≤ c) × (c ≤ b'Z')) ⊎ ((c ≡ b'_') ⊎ ((later ≡ true) × (b'0' ≤ c) × (c ≤ b'9'))))

-- Names with a dot between two of them, and possibly one slash at the end; `later` if the text goes
-- on inside a name.
abbrev pub IsNames : Bool → Bytes → Type 0
IsNames false [] = ⊥
IsNames true [] = Unit {0}
IsNames later (c ∷ cs) =
    (IsNameByte later c × IsNames true cs)
    ⊎ (((later ≡ true) × (c ≡ b'.') × IsNames false cs) ⊎ ((later ≡ true) × (c ≡ b'/') × (cs ≡ [])))

-- The root, or a dotted service name with or without a slash in front.
abbrev pub IsServicePath : Bytes → Type 0
IsServicePath p =
    (p ≡ [])
    ⊎ ((p ≡ b'/' ∷ []) ⊎ (IsNames false p ⊎ ((t : Bytes) × (p ≡ b'/' ∷ t) × IsNames false t)))

pub record GrpcReady (o : Options) : Type 0 where
  pub streaming : OneOf o.mode ("stream-up" ∷ "stream-one" ∷ "auto" ∷ [])
  pub grpc_header : o.no_grpc_header ≡ false
  pub post : OneOf o.method ("" ∷ "POST" ∷ [])
  pub body : OneOf o.uplink_data_placement ("" ∷ "body" ∷ [])
  pub service : IsServicePath o.path
  pub padding : o.x_padding_obfs_mode ≡ true → o.x_padding_placement ≢ "query"

-- A range that is unset, or has non-negative ends in order; an upper end 0 means the default.
abbrev pub SoundRange : Option Range → Type 0
SoundRange none = Unit {0}
SoundRange (some r) = (pos 0 ≤ℤ r.from) × (pos 0 ≤ℤ r.to) × ((r.to ≡ pos 0) ⊎ (r.from ≤ℤ r.to))

abbrev pub SoundXmux : Option XmuxConfig → Type 0
SoundXmux none = Unit {0}
SoundXmux (some x) =
    SoundRange x.max_concurrency
    × SoundRange x.max_connections
    × SoundRange x.c_max_reuse_times
    × SoundRange x.h_max_request_times
    × SoundRange x.h_max_reusable_secs

-- A key, or the default where none is set.
abbrev pub key_or : String → String → String
key_or key default = if str_eq key "" then default else key

-- At this placement the session ID and the sequence number do not stand under one key.
abbrev pub KeysApart : Options → String → String → String → Type 0
KeysApart o place session seq =
    o.session_placement ≡ place
    → o.seq_placement ≡ place
    → key_or o.session_key session ≢ key_or o.seq_key seq

pub record IsValid (o : Options) : Type 0 where
  pub mode :
      OneOf o.mode ("" ∷ "packet-up" ∷ "stream-up" ∷ "stream-one" ∷ "stream-down" ∷ "auto" ∷ [])
  pub grpc : o.grpc_framing ≡ true → GrpcReady o
  pub session_placement :
      OneOf o.session_placement ("" ∷ "path" ∷ "query" ∷ "header" ∷ "cookie" ∷ [])
  pub seq_placement : OneOf o.seq_placement ("" ∷ "path" ∷ "query" ∷ "header" ∷ "cookie" ∷ [])
  pub header_keys : KeysApart o "header" "X-Session" "X-Seq"
  pub query_keys : KeysApart o "query" "x_session" "x_seq"
  pub cookie_keys : KeysApart o "cookie" "x_session" "x_seq"
  pub padding :
      o.x_padding_obfs_mode ≡ true
      → OneOf o.x_padding_placement ("" ∷ "query" ∷ "header" ∷ "cookie" ∷ "query-in-header" ∷ [])
        × OneOf o.x_padding_method ("" ∷ "repeat-x" ∷ "tokenish" ∷ [])
  pub uplink_placement :
      OneOf o.uplink_data_placement ("" ∷ "body" ∷ "header" ∷ "cookie" ∷ "auto" ∷ [])
  pub uplink_key :
      OneOf o.uplink_data_placement ("header" ∷ "cookie" ∷ "auto" ∷ []) → o.uplink_data_key ≢ ""
  pub uplink_chunk_size : SoundRange o.uplink_chunk_size
  pub session_id_length : SoundRange o.session_id_length
  pub header_bytes : pos 0 ≤ℤ o.server_max_header_bytes
  pub x_padding_bytes : SoundRange o.x_padding_bytes
  pub sc_max_each_post_bytes : SoundRange o.sc_max_each_post_bytes
  pub sc_min_posts_interval_ms : SoundRange o.sc_min_posts_interval_ms
  pub sc_stream_up_server_secs : SoundRange o.sc_stream_up_server_secs
  pub buffered_posts : pos 0 ≤ℤ o.sc_max_buffered_posts
  pub xmux : SoundXmux o.xmux
