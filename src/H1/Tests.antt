-- ===== src/H1/Tests.antt =====
-- The retry loop at concrete connections.
use sing_xhttp.Common.{◌≡◌, refl, sym, ap, true, false, none, some, [], ◌∷◌}
use sing_xhttp.H1.{H1Conn, send_h1_request}
use sing_xhttp.H1.Retries.{first_answer, PutBack, send_first_answer}

abbrev dead : H1Conn
dead = record { number = 1; unread = 0; stale = none; takes_request = false; response = none }

abbrev silent : H1Conn
silent = record dead { number = 2; takes_request = true }

abbrev new_conn : H1Conn
new_conn = record silent { number = 3; response = some 200 }

is_drained : (c : H1Conn) → some new_conn ≡ some c → c.unread ≡ 0
is_drained c e = let same : new_conn ≡ c = cc in sym (ap (λ d. d.unread) same)

send_first_answer_example :
    ((send_h1_request true (dead ∷ silent ∷ []) (some new_conn)).sent
      ≡ first_answer (dead ∷ silent ∷ []) (some new_conn))
    × PutBack (send_h1_request true (dead ∷ silent ∷ []) (some new_conn)).pooled
send_first_answer_example =
    send_first_answer (dead ∷ silent ∷ []) (some new_conn) (refl, (refl, tt))
      (λ c e. is_drained c e)
