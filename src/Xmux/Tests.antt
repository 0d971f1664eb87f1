-- ===== src/Xmux/Tests.antt =====
-- Pick at a concrete pool.
use sing_xhttp.Common.{◌≡◌, ◌⊎◌, false, none, [], ◌∷◌}
use sing_xhttp.Common.Int.{pos, negsuc}
use sing_xhttp.Options.{XmuxConfig}
use sing_xhttp.Xmux.{XmuxClient, XmuxManager, Draws, pick, sweep, use_up, fresh_client}
use sing_xhttp.Xmux.Pick.{IsFree, MustMake, pick_sound}

abbrev no_limits : XmuxConfig
no_limits = record {
  max_concurrency = none;
  max_connections = none;
  c_max_reuse_times = none;
  h_max_request_times = none;
  h_max_reusable_secs = none;
  h_keep_alive_period = pos 0;
}

abbrev used : XmuxClient
used = record {
  conn = 0;
  closed = false;
  open_usage = pos 1;
  left_usage = negsuc 0;
  left_requests = pos 5;
  unreusable_at = none;
}

abbrev one_client : XmuxManager
one_client = record {
  config = no_limits;
  concurrency = pos 2;
  connections = pos 0;
  clients = used ∷ record used { conn = 1; left_usage = pos 0 } ∷ [];
  made = 2;
}

abbrev draws : Draws
draws = record { reuse_bits = 0; request_bits = 0; secs_bits = 0; index = 0 }

pick_sound_example :
    ((c : XmuxClient) × IsFree one_client 7 c × ((pick one_client 7 draws).0 ≡ use_up c))
    ⊎ (MustMake one_client (sweep 7 one_client.clients).0
        × ((pick one_client 7 draws).0 ≡ fresh_client one_client 7 draws))
pick_sound_example = pick_sound one_client 7 draws
