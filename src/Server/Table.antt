-- ===== src/Server/Table.antt =====
-- xhttp/server.go: the sessions by ID. A session is a place in `objects`, which handlers keep hold of
-- when its ID is taken out of the map.
pub mod Apart
use sing_xhttp.Common.{
  ℕ, suc, Bool, true, false, Option, none, some, List, [], ◌∷◌, ◌++◌, length, get_elem?, set, ◌==◌,
  if◌then◌else◌,
}
use sing_xhttp.Common.Int.{ℤ}
use sing_xhttp.Common.Text.{Bytes}
use sing_xhttp.Common.Strings.{bytes_eq}
use sing_xhttp.Queue.{UploadQueue, new_upload_queue, close}
use sing_xhttp.Session.{HttpSession, new_session, run, signal_closed, close_queue, close_reader}

pub record Entry : Type 0 where
  pub state : HttpSession
  pub queue : UploadQueue

pub record Sessions : Type 0 where
  pub objects : List Entry
  pub table : List (Bytes × ℕ)

abbrev pub no_sessions : Sessions
no_sessions = record { objects = []; table = [] }

unfoldable pub lookup : Bytes → List (Bytes × ℕ) → Option ℕ
lookup id [] = none
lookup id ((j, p) ∷ t) = if bytes_eq j id then some p else lookup id t

unfoldable pub remove : Bytes → List (Bytes × ℕ) → List (Bytes × ℕ)
remove id [] = []
remove id ((j, p) ∷ t) = if bytes_eq j id then remove id t else (j, p) ∷ remove id t

abbrev pub new_entry : ℤ → Entry
new_entry max_buffered = record { state = new_session; queue = new_upload_queue max_buffered }

-- (*Server).upsertSession: the session of an ID.
unfoldable pub upsert_session : ℤ → Bytes → Sessions → ℕ × Sessions
upsert_session max_buffered id s = elim (lookup id s.table) [
  | some p ↦ (p, s)
  | none ↦ (
    length s.objects,
    record {
      objects = s.objects ++ (new_entry max_buffered ∷ []);
      table = (id, length s.objects) ∷ s.table;
    },
  )
]

-- (*Server).deleteSession
unfoldable pub delete_session : Bytes → Sessions → Sessions
delete_session id s = record s { table = remove id s.table }

-- (*httpSession).Close, with no other method in between.
unfoldable pub close_entry : Entry → Entry
close_entry e = record {
  state = run e.state (signal_closed ∷ close_queue ∷ close_reader ∷ []);
  queue = close e.queue;
}

unfoldable pub close_at : ℕ → List Entry → List Entry
close_at p objects = elim (get_elem? objects p) [
  | none ↦ objects
  | some e ↦ set objects p (close_entry e)
]

abbrev pub is_at : ℕ → Option ℕ → Bool
is_at p none = false
is_at p (some q) = q == p

-- The goroutine of upsertSession, when no download came in time or the session was closed.
unfoldable pub reap : Bytes → ℕ → Sessions → Sessions
reap id p s =
    let rest = if is_at p (lookup id s.table) then remove id s.table else s.table in
    record { objects = close_at p s.objects; table = rest }
