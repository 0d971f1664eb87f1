-- ===== src/Client/Tests.antt =====
-- The client's choices at concrete configurations.
use sing_xhttp.Common.{◌≡◌, refl, true, false, Option, none, some, []}
use sing_xhttp.Common.Text.{codes}
use sing_xhttp.Common.Strings.{one_of}
use sing_xhttp.Options.{Options}
use sing_xhttp.Options.Tests.{plain}
use sing_xhttp.Options.Validate.{
  validate, check_mode, check_grpc, check_placements, check_padding, check_uplink, check_ranges,
  valid_meta_placement, valid_padding_placement, valid_uplink_data_placement, valid_range,
  valid_ranges, xmux_ranges, session_key_of, seq_key_of, or_path, default_key,
}
use sing_xhttp.Server.{server_of, with_defaults, mode_allows}
use sing_xhttp.Client.Resolve.{
  TlsConfig, resolved, resolved_of, check_client, is_reality, new_client, resolve_mode,
  refuses_http3, decide_http_version,
}
use sing_xhttp.Client.Resolve.Agree.{
  uplink_of, Passed, client_valid, server_valid, client_mode_agrees, empty_mode_disagrees,
}

plain_accepted : validate plain ≡ none
unfolding validate check_mode check_grpc check_placements check_padding check_uplink check_ranges
    valid_meta_placement valid_padding_placement valid_uplink_data_placement valid_range
    valid_ranges xmux_ranges session_key_of seq_key_of or_path default_key one_of
plain_accepted = refl

plain_client : new_client plain none [] none ≡ resolved (resolved_of plain none [])
unfolding check_client resolve_mode refuses_http3
plain_client = client_valid plain none [] none plain_accepted

client_mode_agrees_example :
    (mode_allows (server_of (with_defaults plain)) (uplink_of (resolved_of plain none []).mode)
      ≡ true)
    × Passed plain none (resolved_of plain none [])
client_mode_agrees_example =
    client_mode_agrees plain none [] none (resolved_of plain none [])
      (server_of (with_defaults plain)) refl plain_client (server_valid plain plain_accepted)

abbrev empty_mode : Options
empty_mode = record plain { mode = "" }

-- REALITY gives no standard configuration.
abbrev reality : Option TlsConfig
reality = some (record { next_protos = []; has_std_config = false; server_name = codes "h" })

empty_accepted : validate empty_mode ≡ none
unfolding validate check_mode check_grpc check_placements check_padding check_uplink check_ranges
    valid_meta_placement valid_padding_placement valid_uplink_data_placement valid_range
    valid_ranges xmux_ranges session_key_of seq_key_of or_path default_key one_of
empty_accepted = refl

empty_client : new_client empty_mode reality [] none ≡ resolved (resolved_of empty_mode reality [])
unfolding check_client resolve_mode refuses_http3 decide_http_version is_reality
empty_client = client_valid empty_mode reality [] none empty_accepted

empty_mode_disagrees_example :
    ((resolved_of empty_mode reality []).mode ≡ "stream-one")
    × (mode_allows (server_of (with_defaults empty_mode)) (resolved_of empty_mode reality []).mode
        ≡ false)
unfolding is_reality
empty_mode_disagrees_example =
    empty_mode_disagrees empty_mode reality [] none (resolved_of empty_mode reality [])
      (server_of (with_defaults empty_mode)) refl refl refl empty_client
      (server_valid empty_mode empty_accepted)
