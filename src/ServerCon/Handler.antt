-- ===== src/ServerCon/Handler.antt =====
-- The state of CTasPktHandlerServerCon and its error setters
-- (src/tas_client/tas_pkt_handler_server_con.cpp and .h). The arrays of structures are their words
-- in memory: a `tas_target_info_st` is 19 words, a `tas_target_client_info_st` 20.
use tas_client_api.Prelude.{ℕ, ◌+◌, ◌/◌, Mem, List, []}
use tas_client_api.ErrorInfo.{
  TasReturn, err_server_con, err_server_locked, err_device_access, err_device_locked, ErrorInfo,
  error,
}
use tas_client_api.ConInfo
use tas_client_api.Base.Ping.{Base}

abbrev pub max_pkt_rq_size : ℕ
max_pkt_rq_size = 1024

abbrev pub max_pkt_rsp_size : ℕ
max_pkt_rsp_size = 1024

abbrev pub num_target_max : ℕ
num_target_max = 64

abbrev pub num_target_client_max : ℕ
num_target_client_max = 32

-- `sizeof(tas_target_info_st)` and `sizeof(tas_target_client_info_st)`
abbrev pub target_info_size : ℕ
target_info_size = 76

abbrev pub target_client_info_size : ℕ
target_client_info_size = 80

pub record ServerCon : Type 0 where
  -- The fields of the base class that the ping uses: the errors, the connection information and
  -- the request.
  pub base : Base
  pub max_rq_size : ℕ
  pub rq_wi_max : ℕ
  pub max_rsp_size : ℕ
  pub pl1_cnt_outstanding_last : ℕ
  pub device_connect_option : ℕ
  pub server_info : Mem ℕ
  pub server_challenge : ℕ
  pub target_info : Mem ℕ
  pub num_target : ℕ
  -- The characters up to the end of the string.
  pub session_name : List ℕ
  pub session_start_time_us : ℕ
  pub target_client_info : Mem ℕ
  pub num_target_client : ℕ
  pub start_index : ℕ

abbrev pub zeros : Mem ℕ
zeros i = 0

-- The constructor. The fields that it does not set hold what the memory held.
unfoldable pub construct : ErrorInfo → Mem ℕ → ℕ → Mem ℕ → ℕ → Mem ℕ → ℕ → ServerCon
construct ei rq_buf device_connect_option target_info session_start_time_us target_client_info
      start_index =
    record {
      base = record { ei = ei; con_info = ConInfo.empty; rq_buf = rq_buf };
      max_rq_size = max_pkt_rq_size + 64;
      rq_wi_max = (max_pkt_rq_size + 64) / 4;
      max_rsp_size = max_pkt_rsp_size;
      pl1_cnt_outstanding_last = 0xffc0;
      device_connect_option = device_connect_option;
      server_info = zeros;
      server_challenge = 0;
      target_info = target_info;
      num_target = 0;
      session_name = [];
      session_start_time_us = session_start_time_us;
      target_client_info = target_client_info;
      num_target_client = 0;
      start_index = start_index;
    }

abbrev pub set_error : ErrorInfo → ServerCon → ServerCon
set_error ei c = record c { base = record (c.base) { ei = ei } }

abbrev pub set_request : Mem ℕ → ServerCon → ServerCon
set_request rq_buf c = record c { base = record (c.base) { rq_buf = rq_buf } }

abbrev pub leave : ErrorInfo → ServerCon → TasReturn × ServerCon
leave ei c = (ei.tas_err, set_error ei c)

-- `mSetPktRspErrServerConnectionSetup`
abbrev pub err_server_connection_setup : ErrorInfo
err_server_connection_setup = error "ERROR: Server connection setup failed" err_server_con

-- `mSetPktRspErrServerLocked`
abbrev pub err_server_is_locked : ErrorInfo
err_server_is_locked = error "ERROR: Server is locked" err_server_locked

-- `mSetPktRspErrDeviceAccess`
abbrev pub err_no_device_access : ErrorInfo
err_no_device_access =
    error "ERROR: Device access (power-down, reset active, etc.)" err_device_access

-- `mSetPktRspErrDeviceLocked`
abbrev pub err_device_is_locked : ErrorInfo
err_device_is_locked = error "ERROR: Device is locked" err_device_locked
