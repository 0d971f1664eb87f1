-- ===== src/Server/PacketUp/Refusals.antt =====
-- What each answer of handlePacketUpPost leaves behind.
use sing_xhttp.Common.{
  ℕ, ◌≤◌, ◌≡◌, ◌≢◌, refl, ap, sym, subst, ◌∙◌, ◌⊎◌, inl, inr, Bool, Option, none, some, length,
  get_elem?, ltb, arith, Bool-cases, Option-cases,
}
use sing_xhttp.Common.Int.{pos, ltb_ℤ}
use sing_xhttp.Common.Text.{Bytes}
use sing_xhttp.Common.Decimal.{parse_uint}
use sing_xhttp.Codec.Payload.{decode_uplink}
use sing_xhttp.Queue.Heap.{Packet}
use sing_xhttp.Queue.{PushResult, sent, refused, blocked, push}
use sing_xhttp.Server.{Server, HttpRequest}
use sing_xhttp.Server.Table.{Entry, Sessions, upsert_session}
use sing_xhttp.Server.Table.Apart.{IsSound, upsert-IsSound, length-set}
use sing_xhttp.Server.PacketUp.{
  max_of, BodyRead, read, read_failed, too_large, read_body, Answer, status, settle_push,
  decide_packet_up, push_at, after_body, accept_packet, handle_packet_up,
}

-- What a push leaves: as many objects, the same map.
abbrev Kept : Sessions → Sessions → Type 0
Kept s s' = (length s'.objects ≡ length s.objects) × (s'.table ≡ s.table)

settle_push-Kept :
    (p : ℕ) (e : Entry) (s : Sessions) (x : PushResult) → Kept s (settle_push p e s x).1
settle_push-Kept p e s (sent q) = (length-set s.objects p _, refl)
settle_push-Kept p e s refused = (length-set s.objects p e, refl)
settle_push-Kept p e s blocked = (length-set s.objects p e, refl)

push_at-Kept :
    (prefer : Bool) (p : ℕ) (packet : Packet) (s : Sessions) (o : Option Entry)
    → Kept s (push_at prefer p packet s o).1
push_at-Kept prefer p packet s none = (refl, refl)
push_at-Kept prefer p packet s (some e) =
    settle_push-Kept p (decide_packet_up e) s (push prefer e.queue packet)

kept-IsSound : (s s' : Sessions) → Kept s s' → IsSound s → IsSound s'
kept-IsSound s s' (n, t) h = rw (n, t) h

abbrev opened : Server → Bytes → Sessions → ℕ × Sessions
opened s id sessions = upsert_session s.max_buffered_posts id sessions

-- What can come of a request: refused with nothing changed, or pushed into the session of its ID.
abbrev pub Outcome : Server → Bytes → Bytes → Bool → Sessions → Answer × Sessions → Type 0
Outcome s id seq prefer sessions o =
    (o ≡ (status 413, sessions))
    ⊎ (o ≡ (status 400, sessions))
    ⊎ ((packet : Packet) × (length packet.payload ≤ max_of s)
        × (parse_uint seq ≡ some packet.seq)
        × (o
            ≡ push_at prefer (opened s id sessions).0 packet (opened s id sessions).1
                (get_elem? (opened s id sessions).1.objects (opened s id sessions).0)))

accept_packet-Outcome :
    (s : Server) (id seq : Bytes) (prefer : Bool) (payload : Bytes) (sessions : Sessions)
    → Outcome s id seq prefer sessions (accept_packet s id seq prefer payload sessions)
unfolding accept_packet
accept_packet-Outcome s id seq prefer payload sessions =
    elim (Bool-cases (ltb (max_of s) (length payload))) [
      | inl e ↦ inl (rw e refl)
      | inr e ↦ elim (Option-cases (parse_uint seq)) [
        | inl none_read ↦ inr (inl (rw (e, none_read) refl))
        | inr (n, is_n) ↦ inr (
            inr (record { seq = n; payload = payload }, ground (arith, e), is_n, rw (e, is_n) refl))
      ]
    ]

after_body-Outcome :
    (s : Server) (r : HttpRequest) (id seq : Bytes) (prefer : Bool) (sessions : Sessions)
    (b : BodyRead)
    → Outcome s id seq prefer sessions (after_body s r id seq prefer sessions b)
after_body-Outcome s r id seq prefer sessions too_large = inl refl
after_body-Outcome s r id seq prefer sessions read_failed = inr (inl refl)
after_body-Outcome s r id seq prefer sessions (read body) =
    accept_packet-Outcome s id seq prefer (decode_uplink s.codec r.fields body) sessions

handle_packet_up-Outcome :
    (s : Server) (r : HttpRequest) (id seq : Bytes) (prefer : Bool) (sessions : Sessions)
    → Outcome s id seq prefer sessions (handle_packet_up s r id seq prefer sessions)
unfolding handle_packet_up
handle_packet_up-Outcome s r id seq prefer sessions =
    elim (Bool-cases (ltb_ℤ (pos (max_of s)) r.content_length)) [
      | inl e ↦ inl (rw e refl)
      | inr e ↦ rw e (after_body-Outcome s r id seq prefer sessions (read_body s r))
    ]

pub handle_packet_up-IsSound :
    (s : Server) (r : HttpRequest) (id seq : Bytes) (prefer : Bool) (sessions : Sessions)
    → IsSound sessions
    → IsSound (handle_packet_up s r id seq prefer sessions).1
handle_packet_up-IsSound s r id seq prefer sessions h =
    elim (handle_packet_up-Outcome s r id seq prefer sessions) [
      | inl e ↦ subst (λ o. IsSound o.1) (sym e) h
      | inr (inl e) ↦ subst (λ o. IsSound o.1) (sym e) h
      | inr (inr (packet, fits, is_seq, e)) ↦
          let (p, after) = opened s id sessions in
          subst (λ o. IsSound o.1) (sym e)
            (kept-IsSound after (push_at prefer p packet after (get_elem? after.objects p)).1
              (push_at-Kept prefer p packet after (get_elem? after.objects p))
              (upsert-IsSound s.max_buffered_posts id sessions h))
    ]

-- The map afterwards is the one before, or the one with the session of the ID.
pub handle_packet_up-table :
    (s : Server) (r : HttpRequest) (id seq : Bytes) (prefer : Bool) (sessions : Sessions)
    → let after = (handle_packet_up s r id seq prefer sessions).1 in
      (after.table ≡ sessions.table)
      ⊎ (after.table ≡ (upsert_session s.max_buffered_posts id sessions).1.table)
handle_packet_up-table s r id seq prefer sessions =
    elim (handle_packet_up-Outcome s r id seq prefer sessions) [
      | inl e ↦ inl (ap (λ o. o.1.table) e)
      | inr (inl e) ↦ inl (ap (λ o. o.1.table) e)
      | inr (inr (packet, fits, is_seq, e)) ↦
          let (p, after) = opened s id sessions in
          inr (
            ap (λ o. o.1.table) e
            ∙ (push_at-Kept prefer p packet after (get_elem? after.objects p)).1)
    ]

-- A settled push is not one of the refusals in front of it.
settled :
    (p c : ℕ) (e : Entry) (s : Sessions) (x : PushResult)
    → (settle_push p e s x).0 ≡ status c
    → (c ≡ 200) ⊎ (c ≡ 409)
settled p c e s (sent q) h = inl (cc)
settled p c e s refused h = inr (cc)
settled p c e s blocked h = absurd (cc)

pushed :
    (prefer : Bool) (p c : ℕ) (packet : Packet) (s : Sessions) (o : Option Entry)
    → (push_at prefer p packet s o).0 ≡ status c
    → (c ≡ 200) ⊎ (c ≡ 409)
pushed prefer p c packet s none h = absurd (cc)
pushed prefer p c packet s (some e) h =
    settled p c (decide_packet_up e) s (push prefer e.queue packet) h

same_status : (a c : ℕ) → status a ≡ status c → c ≡ a
same_status a c e = cc

-- A POST is answered with 200, 409, 400 or 413, or waits for room in the queue. With 400 and 413
-- nothing has changed: no session is made for the ID, and no queue is touched. With 200 and 409 the
-- sequence number was one that fits in 64 bits.
pub handle_packet_up_answers :
    (s : Server) (r : HttpRequest) (id seq : Bytes) (prefer : Bool) (sessions : Sessions) (c : ℕ)
    → (handle_packet_up s r id seq prefer sessions).0 ≡ status c
    → ((c ≡ 400) ⊎ (c ≡ 413)) × ((handle_packet_up s r id seq prefer sessions).1 ≡ sessions)
      ⊎ ((c ≡ 200) ⊎ (c ≡ 409)) × (parse_uint seq ≢ none)
handle_packet_up_answers s r id seq prefer sessions c h =
    elim (handle_packet_up-Outcome s r id seq prefer sessions) [
      | inl e ↦ inl (inr (same_status 413 c (sym (ap (λ o. o.0) e) ∙ h)), ap (λ o. o.1) e)
      | inr (inl e) ↦ inl (inl (same_status 400 c (sym (ap (λ o. o.0) e) ∙ h)), ap (λ o. o.1) e)
      | inr (inr (packet, fits, is_seq, e)) ↦
          let (p, after) = opened s id sessions in
          inr (
            pushed prefer p c packet after (get_elem? after.objects p) (sym (ap (λ o. o.0) e) ∙ h),
            (λ no. cc),
          )
    ]
