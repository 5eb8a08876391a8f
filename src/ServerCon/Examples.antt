-- ===== src/ServerCon/Examples.antt =====
-- Tests of the server connection's packets, and the theorems at concrete inputs.
use tas_client_api.Prelude.{ℕ, ◌≡◌, refl, arith, Mem, List, [], ◌∷◌, get_or, entries}
use tas_client_api.Pkt.Cmd
use tas_client_api.ErrorInfo.{no_error, err_none}
use tas_client_api.Base.Ping.{client_rw}
use tas_client_api.ServerCon.Handler.{ServerCon, construct}
use tas_client_api.ServerCon.Connecting.{
  get_pkt_rq_server_connect, get_pkt_rq_session_start, set_pkt_rsp_server_connect,
  take_server_connect,
}
use tas_client_api.ServerCon.Targets.{
  get_pkt_rq_get_targets, set_pkt_rsp_get_targets, check_targets, take_targets,
}
use tas_client_api.ServerCon.Clients.{get_pkt_rq_get_target_clients, set_pkt_rsp_get_target_clients}
use tas_client_api.ServerCon.Device.{
  get_pkt_rq_device_unlock_set_key, get_pkt_rq_device_connect, get_pkt_rq_device_reset_count,
  set_pkt_rsp_device_connect,
}
use tas_client_api.ServerCon.Listed
use tas_client_api.ServerCon.Attached
use tas_client_api.ServerCon.Connected.{
  IsServerOutcome, set_pkt_rsp_server_connect-Outcome, IsDeviceOutcome,
  set_pkt_rsp_device_connect-Outcome,
}
use tas_client_api.ServerCon.Requests.{IsRequest, requests-IsRequest}

abbrev zeros : Mem ℕ
zeros i = 0

abbrev handler : ServerCon
handler = construct no_error zeros 0 zeros 0 zeros 0

abbrev words : List ℕ → Mem ℕ
words xs i = get_or xs i 0

-- "ab" and "u", with process 7.
connecting :
    entries (get_pkt_rq_server_connect (97 ∷ 98 ∷ []) (117 ∷ []) 7 handler).base.rq_buf 0 3
    ≡ 60 ∷ 0x0000_800d ∷ 0x0000_6261 ∷ []
unfolding get_pkt_rq_server_connect construct entries
connecting = refl

-- One target, of which the first word is 5.
abbrev one_target : Mem ℕ
one_target = words (88 ∷ 0x0800_8614 ∷ 0x0001_0001 ∷ 5 ∷ [])

listed : (set_pkt_rsp_get_targets one_target handler).ret ≡ err_none
unfolding set_pkt_rsp_get_targets check_targets take_targets construct
listed = refl

set_pkt_rsp_get_targets-Outcome_example :
    Listed.IsOutcome one_target handler (set_pkt_rsp_get_targets one_target handler)
unfolding construct
set_pkt_rsp_get_targets-Outcome_example =
    Listed.set_pkt_rsp_get_targets-Outcome one_target handler (omega arith)

abbrev one_client : Mem ℕ
one_client = words (116 ∷ 0x0800_871b ∷ 0x0001_0001 ∷ 97 ∷ [])

set_pkt_rsp_get_target_clients-Outcome_example :
    Attached.IsOutcome one_client handler (set_pkt_rsp_get_target_clients one_client handler)
unfolding construct
set_pkt_rsp_get_target_clients-Outcome_example =
    Attached.set_pkt_rsp_get_target_clients-Outcome one_client handler (omega arith)

abbrev server : Mem ℕ
server = words (140 ∷ 0x0800_8021 ∷ 0 ∷ 97 ∷ [])

reached : (set_pkt_rsp_server_connect server handler).ret ≡ err_none
unfolding set_pkt_rsp_server_connect take_server_connect construct
reached = refl

set_pkt_rsp_server_connect-Outcome_example :
    IsServerOutcome server (set_pkt_rsp_server_connect server handler)
set_pkt_rsp_server_connect-Outcome_example = set_pkt_rsp_server_connect-Outcome server handler

abbrev device : Mem ℕ
device = words (16 ∷ 0x0800_a802 ∷ 1 ∷ 0x1020_5083 ∷ [])

set_pkt_rsp_device_connect-Outcome_example :
    IsDeviceOutcome device handler (set_pkt_rsp_device_connect device handler)
set_pkt_rsp_device_connect-Outcome_example = set_pkt_rsp_device_connect-Outcome device handler

requests-IsRequest_example :
    IsRequest Cmd.pl1_server_connect (get_pkt_rq_server_connect (97 ∷ []) (98 ∷ []) 7 handler)
    × IsRequest Cmd.pl1_get_targets (get_pkt_rq_get_targets 2 handler)
    × IsRequest Cmd.pl1_get_clients (get_pkt_rq_get_target_clients (97 ∷ []) 2 handler)
    × IsRequest Cmd.pl1_session_start
        (get_pkt_rq_session_start client_rw (97 ∷ []) (98 ∷ []) (99 ∷ []) 0 0 handler)
    × IsRequest Cmd.pl1_set_device_key (get_pkt_rq_device_unlock_set_key 1 zeros 0x40 32 handler)
    × IsRequest Cmd.pl1_device_connect (get_pkt_rq_device_connect 3 handler)
    × IsRequest Cmd.pl1_device_reset_count (get_pkt_rq_device_reset_count handler)
requests-IsRequest_example =
    requests-IsRequest client_rw (97 ∷ []) (98 ∷ []) (99 ∷ []) 7 2 0 0 1 3 zeros 0x40 32 handler
      (omega arith)
