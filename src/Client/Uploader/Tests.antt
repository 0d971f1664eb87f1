-- ===== src/Client/Uploader/Tests.antt =====
-- An upload of two chunks with a rotation between them.
use sing_xhttp.Common.{◌+◌, ◌≡◌, ◌≢◌, none, List, [], ◌∷◌, map, arith}
use sing_xhttp.Common.Int.{pos}
use sing_xhttp.Common.Text.{codes}
use sing_xhttp.Client.Waiter.Once.{count}
use sing_xhttp.Client.Uploader.{Turn, dial, rotate, rotates, send_chunk, upload, close_all}
use sing_xhttp.Client.Uploader.Usage.{rotation_leaks}
use sing_xhttp.Client.Uploader.Numbers.{packet_of, numbered, upload-numbered}

abbrev first_turn : Turn
first_turn = record {
  chunk = codes "ab";
  left_requests = pos 9;
  unreusable_at = none;
  now = 3;
  picked = 5;
}

abbrev turns : List Turn
turns = first_turn ∷ (record first_turn { chunk = codes "c"; left_requests = pos 1 }) ∷ []

moved : (upload turns (dial 4)).bound ≢ 4
unfolding upload send_chunk rotate rotates dial
moved e = omega (arith, e)

rotation_leaks_example :
    let done = close_all 4 (upload turns (dial 4)) in
    let z = (upload turns (dial 4)).bound in
    (count z done.taken ≡ count z done.released + 1)
    × (count 4 done.released ≡ count 4 done.taken + 1)
rotation_leaks_example = rotation_leaks 4 turns moved

upload-numbered_example : map packet_of (upload turns (dial 4)).posts ≡ numbered 0 turns
upload-numbered_example = upload-numbered 4 turns (omega arith)
