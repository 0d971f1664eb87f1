-- ===== src/Xmux.antt =====
-- xhttp/xmux.go: the pool of transports. A connection is a number, in the order in which newConn
-- made them; what it does with its transport is left out, whether it was closed is kept.
pub mod Pick
mod Tests
use sing_xhttp.Common.{
  ℕ, zero, suc, ◌+◌, ◌-◌, ◌*◌, ◌/◌, ◌%◌, ◌^◌, Bool, true, false, ◌&&◌, ◌||◌, not, Option, none,
  some, List, [], ◌∷◌, ◌++◌, ◌==◌, leb, ltb, if◌then◌else◌, length, get_elem?,
}
use sing_xhttp.Common.Int.{ℤ, pos, negsuc, ◌-ℤ◌, ◌+ℤ◌, ltb_ℤ, leb_ℤ, is_positive}
use sing_xhttp.Options.{Range, XmuxConfig, is_zero, range}
use sing_xhttp.Options.RangeRand.{range_rand}

-- xmuxClient with its xmuxConn. Times are in nanoseconds, `none` never expires.
pub record XmuxClient : Type 0 where
  pub conn : ℕ
  pub closed : Bool
  pub open_usage : ℤ
  pub left_usage : ℤ
  pub left_requests : ℤ
  pub unreusable_at : Option ℕ

-- xmuxManager, with the number of connections made so far.
pub record XmuxManager : Type 0 where
  pub config : XmuxConfig
  pub concurrency : ℤ
  pub connections : ℤ
  pub clients : List XmuxClient
  pub made : ℕ

-- What one call draws: four random bytes for each range, and a random number for the index.
pub record Draws : Type 0 where
  pub reuse_bits : ℕ
  pub request_bits : ℕ
  pub secs_bits : ℕ
  pub index : ℕ

-- orZero
unfoldable pub or_zero : Option Range → Range
or_zero none = range 0 0
or_zero (some r) = r

-- newXmuxManager
unfoldable pub new_xmux_manager : XmuxConfig → ℕ → ℕ → XmuxManager
new_xmux_manager cfg bits bits' = record {
  config = cfg;
  concurrency = range_rand (or_zero cfg.max_concurrency) bits;
  connections = range_rand (or_zero cfg.max_connections) bits';
  clients = [];
  made = 0;
}

abbrev pub max_int32 : ℕ
max_int32 = 2 ^ 31 - 1

-- `time.Now().Add(time.Duration(x) * time.Second)` for a positive x.
unfoldable pub expiry : ℕ → ℤ → Option ℕ
expiry now (pos x) = if ltb 0 x then some (now + x * 1_000_000_000) else none
expiry now (negsuc x) = none

-- The client that newClient makes.
unfoldable pub fresh_client : XmuxManager → ℕ → Draws → XmuxClient
fresh_client m now d =
    let reuse = range_rand (or_zero m.config.c_max_reuse_times) d.reuse_bits in
    let requests = range_rand (or_zero m.config.h_max_request_times) d.request_bits in
    let secs = range_rand (or_zero m.config.h_max_reusable_secs) d.secs_bits in
    record {
      conn = m.made;
      closed = false;
      open_usage = pos 0;
      left_usage = if is_positive reuse then reuse -ℤ pos 1 else negsuc 0;
      left_requests = if is_positive requests then requests else pos max_int32;
      unreusable_at = expiry now secs;
    }

-- newClient
unfoldable pub new_client : XmuxManager → ℕ → Draws → XmuxClient × XmuxManager
new_client m now d =
    let c = fresh_client m now d in
    (c, record m { clients = m.clients ++ (c ∷ []); made = suc m.made })

-- (*xmuxConn).Close: whether it releases the transport's sockets, and the client after it.
unfoldable pub close_conn : XmuxClient → Bool × XmuxClient
close_conn c = (not c.closed, record c { closed = true })

-- The client's time is over.
unfoldable pub expired : Option ℕ → ℕ → Bool
expired none now = false
expired (some at_) now = ltb at_ now

-- The condition `retired` of Pick.
unfoldable pub retired : ℕ → XmuxClient → Bool
unfolding expired
retired now c =
    c.closed
    || (is_zero c.left_usage || (leb_ℤ c.left_requests (pos 0) || expired c.unreusable_at now))

-- The loop of Pick that sweeps retired clients: those that stay, and the connections on
-- which it calls Close.
unfoldable pub sweep : ℕ → List XmuxClient → List XmuxClient × List ℕ
sweep now [] = ([], [])
sweep now (c ∷ cs) =
    let (kept, shut) = sweep now cs in
    if retired now c then (kept, c.conn ∷ shut) else (c ∷ kept, shut)

-- The clients below the concurrency budget; all of them without one.
unfoldable pub below : ℤ → List XmuxClient → List XmuxClient
below n [] = []
below n (c ∷ cs) = let rest = below n cs in if ltb_ℤ c.open_usage n then c ∷ rest else rest

unfoldable pub candidates : ℤ → List XmuxClient → List XmuxClient
candidates concurrency clients =
    if is_positive concurrency then below concurrency clients else clients

-- randIndex, with the random number that crypto/rand gives.
unfoldable pub rand_index : ℕ → ℕ → ℕ
rand_index zero v = 0
rand_index (suc n) v = v % suc n

-- The picked client has one return less, if they are counted.
unfoldable pub use_up : XmuxClient → XmuxClient
use_up c = if is_positive c.left_usage then record c { left_usage = c.left_usage -ℤ pos 1 } else c

-- The pool holds pointers, so it sees what happens to the picked client.
unfoldable pub update : XmuxClient → List XmuxClient → List XmuxClient
update c [] = []
update c (d ∷ ds) = let rest = update c ds in if d.conn == c.conn then c ∷ rest else d ∷ rest

-- The end of Pick: one of the candidates, or a fresh client if there is none.
unfoldable pub pick_from : XmuxManager → ℕ → Draws → List XmuxClient → XmuxClient × XmuxManager
pick_from m now d cs = elim (get_elem? cs (rand_index (length cs) d.index)) [
  | none ↦ new_client m now d
  | some c ↦ (use_up c, record m { clients = update (use_up c) m.clients })
]

-- Pick: the client, the pool after it, and the connections
-- on which it called Close.
unfoldable pub pick : XmuxManager → ℕ → Draws → XmuxClient × XmuxManager × List ℕ
pick m now d =
    let (kept, shut) = sweep now m.clients in
    let m1 : XmuxManager = record m { clients = kept } in
    let (c, m2) : XmuxClient × XmuxManager =
      if leb (length kept) 0
      then new_client m1 now d
      else (if is_positive m.connections && ltb_ℤ (pos (length kept)) m.connections
          then new_client m1 now d
          else pick_from m1 now d (candidates m.concurrency kept)) in
    (c, m2, shut)

unfoldable pub conns : List XmuxClient → List ℕ
conns [] = []
conns (c ∷ cs) = c.conn ∷ conns cs

-- Close: the pool after it, and the connections on which it calls Close.
unfoldable pub close : XmuxManager → XmuxManager × List ℕ
close m = (record m { clients = [] }, conns m.clients)
