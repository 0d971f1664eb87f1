-- ===== src/H2/Streams.antt =====
-- xhttp/h2_conn.go: the streams that are open and the order in which they were opened.
pub mod Open
pub mod Order
use sing_xhttp.Common.{
  ℕ, Bool, true, false, ◌&&◌, not, Option, none, some, List, [], ◌∷◌, ◌++◌, ◌==◌, if◌then◌else◌,
}

-- h2StreamState
pub record StreamState : Type 0 where
  pub local_ended : Bool
  pub remote_ended : Bool

-- The fields `streams` (a map) and `order`.
pub record Streams : Type 0 where
  pub states : List (ℕ × StreamState)
  pub order : List ℕ

unfoldable pub state_of : ℕ → List (ℕ × StreamState) → Option StreamState
state_of id [] = none
state_of id ((j, s) ∷ m) = if j == id then some s else state_of id m

-- A write through the pointer that the map holds.
unfoldable pub set_state : ℕ → StreamState → List (ℕ × StreamState) → List (ℕ × StreamState)
set_state id s [] = []
set_state id s ((j, t) ∷ m) = if j == id then (j, s) ∷ m else (j, t) ∷ set_state id s m

-- delete
unfoldable pub delete : ℕ → List (ℕ × StreamState) → List (ℕ × StreamState)
delete id [] = []
delete id ((j, s) ∷ m) = if j == id then delete id m else (j, s) ∷ delete id m

-- The loop that cuts the first entry of an id out of `order`.
unfoldable pub cut : ℕ → List ℕ → List ℕ
cut id [] = []
cut id (j ∷ js) = if j == id then js else j ∷ cut id js

abbrev pub fresh : StreamState
fresh = record { local_ended = false; remote_ended = false }

abbrev pub first_ended : StreamState
first_ended = record { local_ended = true; remote_ended = false }

-- removeStreamLocked
unfoldable pub remove_stream : ℕ → Streams → Streams
unfolding delete cut
remove_stream id st = elim (state_of id st.states) [
  | none ↦ st
  | some _ ↦ record { states = delete id st.states; order = cut id st.order }
]

-- removeStreamIfDoneLocked, after the state was written.
unfoldable pub remove_if_done : ℕ → StreamState → Streams → Streams
remove_if_done id s st =
    let kept = record st { states = set_state id s st.states } in
    if s.local_ended && s.remote_ended then remove_stream id kept else kept

-- noteLocalEnd
unfoldable pub note_local_end : ℕ → Streams → Streams
note_local_end id st = elim (state_of id st.states) [
  | none ↦ st
  | some s ↦ remove_if_done id (record s { local_ended = true }) st
]

-- noteRemoteEnd
unfoldable pub note_remote_end : ℕ → Streams → Streams
note_remote_end id st = elim (state_of id st.states) [
  | none ↦ st
  | some s ↦ remove_if_done id (record s { remote_ended = true }) st
]

-- noteLocalHeaders: whether the stream is new, and the streams after it.
unfoldable pub note_local_headers : ℕ → Bool → Streams → Bool × Streams
note_local_headers id ended st = elim (state_of id st.states) [
  | none ↦
      let opened : Streams = record {
        states = (id, fresh) ∷ st.states;
        order = st.order ++ (id ∷ []);
      } in
      (true, if ended then remove_if_done id first_ended opened else opened)
  | some s ↦ (false, if ended then remove_if_done id (record s { local_ended = true }) st else st)
]

-- The loop of parentStream, from the end of `order`.
unfoldable pub last_other : ℕ → List ℕ → Option ℕ
last_other id [] = none
last_other id (j ∷ js) = elim (last_other id js) [
  | some k ↦ some k
  | none ↦ if j == id then none else some j
]

-- parentStream
unfoldable pub parent_stream : ℕ → Streams → ℕ
parent_stream id st = elim (last_other id st.order) [ none ↦ 0 | some k ↦ k ]
