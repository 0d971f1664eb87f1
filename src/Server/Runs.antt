-- ===== src/Server/Runs.antt =====
-- Any sequence of what handlers and reapers do with the session map.
use sing_xhttp.Common.{
  ℕ, ◌<◌, ◌≡◌, ◌≢◌, ◌⊎◌, refl, ap, sym, ◌∙◌, inl, inr, Bool, true, none, some, List, [], ◌∷◌,
  length, arith, All, Bool-cases, Option-cases,
}
use sing_xhttp.Common.Int.{ℤ}
use sing_xhttp.Common.Text.{Bytes}
use sing_xhttp.Common.Strings.{bytes_eq, bytes_eq_iff}
use sing_xhttp.Server.{Server, HttpRequest}
use sing_xhttp.Server.Table.{
  Sessions, no_sessions, lookup, upsert_session, delete_session, reap, remove, is_at,
}
use sing_xhttp.Server.Table.Apart.{
  IsSound, upsert-IsSound, delete-IsSound, reap-IsSound, one_holder, Sound-lookup,
}
use sing_xhttp.Server.PacketUp.{handle_packet_up}
use sing_xhttp.Server.PacketUp.Refusals.{handle_packet_up-IsSound, handle_packet_up-table}

-- A streamed upload or a download that asks for a session, a packet, the end of a download, and a
-- reaper.
pub data Op : Type 0 where
  opened : ℤ → Bytes → Op
  packet : Server → HttpRequest → Bytes → Bytes → Bool → Op
  end_download : Bytes → Op
  reaped : Bytes → ℕ → Op

abbrev pub run_op : Op → Sessions → Sessions
run_op (opened max id) s = (upsert_session max id s).1
run_op (packet server r id seq prefer) s = (handle_packet_up server r id seq prefer s).1
run_op (end_download id) s = delete_session id s
run_op (reaped id p) s = reap id p s

abbrev pub run_ops : List Op → Sessions → Sessions
run_ops [] s = s
run_ops (op ∷ ops) s = run_ops ops (run_op op s)

run_op-IsSound : (op : Op) (s : Sessions) → IsSound s → IsSound (run_op op s)
run_op-IsSound (opened max id) s h = upsert-IsSound max id s h
run_op-IsSound (packet server r id seq prefer) s h =
    handle_packet_up-IsSound server r id seq prefer s h
run_op-IsSound (end_download id) s h = delete-IsSound id s h
run_op-IsSound (reaped id p) s h = reap-IsSound id p s h

run_ops-IsSound : (ops : List Op) (s : Sessions) → IsSound s → IsSound (run_ops ops s)
run_ops-IsSound [] s h = h
run_ops-IsSound (op ∷ ops) s h = run_ops-IsSound ops (run_op op s) (run_op-IsSound op s h)

-- What leaves a session that an ID holds in the map: neither the end of that ID's download nor the
-- reaper of that very session.
abbrev pub Spares : Bytes → ℕ → Op → Type 0
Spares id p (opened max j) = Unit
Spares id p (packet server r j seq prefer) = Unit
Spares id p (end_download j) = j ≢ id
Spares id p (reaped j q) = (j ≢ id) ⊎ (q ≢ p)

upsert-keeps :
    (max : ℤ) (id j : Bytes) (p : ℕ) (s : Sessions)
    → lookup id s.table ≡ some p
    → lookup id (upsert_session max j s).1.table ≡ some p
unfolding upsert_session lookup
upsert-keeps max id j p s e = elim (Option-cases (lookup j s.table)) [
  | inr (q, k) ↦ rw (k, upsert_session) e
  | inl k ↦ elim (Bool-cases (bytes_eq j id)) [
    | inl same ↦
        let is_id : j ≡ id = (bytes_eq_iff j id).0 same in
        absurd (let absent : none ≡ some p = sym k ∙ ap (λ i. lookup i s.table) is_id ∙ e in cc)
    | inr other ↦ rw (k, upsert_session, other, lookup) e
  ]
]

remove-keeps :
    (id j : Bytes) (p : ℕ) (t : List (Bytes × ℕ))
    → j ≢ id
    → lookup id t ≡ some p
    → lookup id (remove j t) ≡ some p
unfolding lookup remove
remove-keeps id j p [] ne e = e
remove-keeps id j p ((i, q) ∷ t) ne e =
    ground (arith, remove-keeps id j p t ne, bytes_eq_iff i j, bytes_eq_iff i id)

reap-keeps :
    (id j : Bytes) (p q : ℕ) (s : Sessions)
    → lookup id s.table ≡ some p
    → (j ≢ id) ⊎ (q ≢ p)
    → lookup id (reap j q s).table ≡ some p
unfolding reap
reap-keeps id j p q s e spares = elim (Bool-cases (is_at q (lookup j s.table))) [
  | inr other ↦ rw other e
  | inl held ↦ elim (Bool-cases (bytes_eq j id)) [
    | inr other ↦ rw held (remove-keeps id j p s.table (λ k. cc (other, (bytes_eq_iff j id).1 k)) e)
    | inl same ↦
        let is_id : j ≡ id = (bytes_eq_iff j id).0 same in
        let found : is_at q (some p) ≡ true =
          sym (ap (is_at q) (ap (λ i. lookup i s.table) is_id ∙ e)) ∙ held in
        absurd (elim spares [ inl ne ↦ ne is_id | inr ne ↦ ne (ground (arith, found)) ])
  ]
]

run_op-keeps :
    (op : Op) (s : Sessions) (id : Bytes) (p : ℕ)
    → Spares id p op
    → lookup id s.table ≡ some p
    → lookup id (run_op op s).table ≡ some p
unfolding delete_session
run_op-keeps (opened max j) s id p spares e = upsert-keeps max id j p s e
run_op-keeps (packet server r j seq prefer) s id p spares e =
    elim (handle_packet_up-table server r j seq prefer s) [
      | inl k ↦ ap (lookup id) k ∙ e
      | inr k ↦ ap (lookup id) k ∙ upsert-keeps server.max_buffered_posts id j p s e
    ]
run_op-keeps (end_download j) s id p spares e = remove-keeps id j p s.table spares e
run_op-keeps (reaped j q) s id p spares e = reap-keeps id j p q s e spares

run_ops-keeps :
    (ops : List Op) (s : Sessions) (id : Bytes) (p : ℕ)
    → All (Spares id p) ops
    → lookup id s.table ≡ some p
    → lookup id (run_ops ops s).table ≡ some p
run_ops-keeps [] s id p spares e = e
run_ops-keeps (op ∷ ops) s id p spares e =
    run_ops-keeps ops (run_op op s) id p spares.1 (run_op-keeps op s id p spares.0 e)

upsert_held :
    (max : ℤ) (id : Bytes) (p : ℕ) (s : Sessions)
    → lookup id s.table ≡ some p
    → upsert_session max id s ≡ (p, s)
unfolding upsert_session
upsert_held max id p s e = rw (e, upsert_session) refl

remove_gone : (id : Bytes) (t : List (Bytes × ℕ)) → lookup id (remove id t) ≡ none
unfolding lookup remove
remove_gone id [] = refl
remove_gone id ((j, p) ∷ t) = ground (arith, remove_gone id t)

reap_gone :
    (id : Bytes) (p : ℕ) (s : Sessions)
    → lookup id s.table ≡ some p
    → lookup id (reap id p s).table ≡ none
unfolding reap
reap_gone id p s e =
    let here : is_at p (lookup id s.table) ≡ true = rw e (ground arith) in
    rw here (remove_gone id s.table)

delete_gone : (id : Bytes) (s : Sessions) → lookup id (delete_session id s).table ≡ none
unfolding delete_session
delete_gone id s = remove_gone id s.table

-- A session that the map holds under an ID stays there over any sequence of packets and opened
-- sessions of any ID, ended downloads of other IDs, and reapers of other IDs or of other sessions of
-- this ID. Whoever asks for the ID then is given that session, and nothing changes; and the end of
-- this ID's download, or the reaper of this session, takes the ID out of the map.
pub keeps_session :
    (ops : List Op) (s : Sessions) (id : Bytes) (p : ℕ) (max : ℤ)
    → lookup id s.table ≡ some p
    → All (Spares id p) ops
    → let after = run_ops ops s in
      (lookup id after.table ≡ some p)
      × (upsert_session max id after ≡ (p, after))
      × (lookup id (delete_session id after).table ≡ none)
      × (lookup id (reap id p after).table ≡ none)
keeps_session ops s id p max e spares =
    let after = run_ops ops s in
    let held = run_ops-keeps ops s id p spares e in
    (held, upsert_held max id p after held, delete_gone id after, reap_gone id p after held)

-- After any sequence of packets, opened sessions, ended downloads and reaped sessions, whatever
-- their order and IDs: a session that the map holds is one of the sessions made, and no two IDs hold
-- the same one.
sessions_apart :
    (ops : List Op) (a b : Bytes) (p : ℕ)
    → lookup a (run_ops ops no_sessions).table ≡ some p
    → lookup b (run_ops ops no_sessions).table ≡ some p
    → (p < length (run_ops ops no_sessions).objects) × (a ≡ b)
sessions_apart ops a b p e k =
    let after = run_ops ops no_sessions in
    let h = run_ops-IsSound ops no_sessions tt in
    (
      Sound-lookup (length after.objects) p a after.table h e,
      one_holder (length after.objects) p a b after.table h e k,
    )
