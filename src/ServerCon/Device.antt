-- ===== src/ServerCon/Device.antt =====
-- The device key, the connection to a device and the reset counters, of CTasPktHandlerServerCon
-- (src/tas_client/tas_pkt_handler_server_con.cpp).
use tas_client_api.Prelude.{
  ℕ, ◌+◌, ◌-◌, ◌*◌, ◌/◌, Bool, ◌&&◌, ◌||◌, not, Option, none, some, [], Mem, store, ltb, ◌==◌, ◌!=◌,
  if◌then◌else◌, byte0, byte1, byte3, half0, bytes4, halves2, u8, u16, bit_and, memcpy_to_words,
}
use tas_client_api.Pkt.Cmd
use tas_client_api.Pkt.Err
use tas_client_api.ErrorInfo.{
  TasReturn, err_fn_param, err_device_access, ErrorInfo, formatted, error, no_error,
}
use tas_client_api.Base.Errors.{err_connection_protocol}
use tas_client_api.Base.Ping.{handle_pkt_error}
use tas_client_api.ServerCon.Handler.{
  ServerCon, set_error, set_request, leave, err_no_device_access, err_device_is_locked,
}
use tas_client_api.ServerCon.Connecting.{blank}
use tas_client_api.ServerCon.Targets.{lesser}

abbrev pub unlock_max_key_len : ℕ
unlock_max_key_len = 512

-- `ulo` is the unlock option; `host` is the caller's memory, in which the key begins at `key`.
unfoldable pub get_pkt_rq_device_unlock_set_key : ℕ → Mem ℕ → ℕ → ℕ → ServerCon → ServerCon
get_pkt_rq_device_unlock_set_key ulo host key key_length c =
    let words = (key_length + 3) / 4 in
    let len = lesser key_length unlock_max_key_len in
    let head =
      store
        (store (clear_header (store c.base.rq_buf 0 (4 + 8 + words * 4))) 1
          (bytes4 (u8 (8 / 4 - 1 + words)) Cmd.pl1_set_device_key 0 0))
        2 (halves2 ulo len) in
    set_request (if ltb 0 key_length then memcpy_to_words host key len head 12 else head) c
  where
    clear_header : Mem ℕ → Mem ℕ
    clear_header m = store (store m 1 0) 2 0

unfoldable pub set_pkt_rsp_device_unlock_set_key : Mem ℕ → ServerCon → TasReturn × ServerCon
set_pkt_rsp_device_unlock_set_key pkt c =
    if pkt 0 != 4 + 4
    then leave err_connection_protocol c
    else if byte1 (pkt 1) != Cmd.pl1_set_device_key || byte0 (pkt 1) != 4 / 4 - 1
    then leave err_connection_protocol c
    else if byte3 (pkt 1) != Err.pl_no_error
    then leave err_connection_protocol c
    else leave no_error c

-- `TAS_DEV_CON_FEAT_RESET` and `TAS_DEV_CON_FEAT_RESET_AND_HALT`
abbrev pub feat_reset : ℕ
feat_reset = 0x0001

abbrev pub feat_reset_and_halt : ℕ
feat_reset_and_halt = 0x0003

unfoldable pub get_pkt_rq_device_connect : ℕ → ServerCon → ServerCon
get_pkt_rq_device_connect option c =
    set_request
      (store (blank 8 (bytes4 (8 / 4 - 1) Cmd.pl1_device_connect 0 0) c.base.rq_buf) 2
        (halves2 option 0))
      (record c { device_connect_option = u16 option })

-- What `set_pkt_rsp_device_connect` returns and sets.
pub record DeviceConnection : Type 0 where
  pub ret : TasReturn
  pub handler : ServerCon
  pub dev_con_feat_used : ℕ
  pub device_type : ℕ

abbrev pub device_connection : ℕ → ℕ → ErrorInfo → ServerCon → DeviceConnection
device_connection feat device_type ei c = record {
  ret = ei.tas_err;
  handler = set_error ei c;
  dev_con_feat_used = feat;
  device_type = device_type;
}

-- A feature that is asked for and not used.
abbrev pub is_missing : ℕ → ℕ → ℕ → Bool
is_missing feat option used = bit_and option feat != 0 && not (bit_and used feat != 0)

-- The error of a command that failed; its text may be that of an earlier error.
unfoldable pub connect_failed : ℕ → ℕ → ServerCon → ErrorInfo
connect_failed used device_type c =
    if device_type != 0
    then record {
      info =
          if is_missing feat_reset c.device_connect_option used
          then formatted "ERROR: Reset not supported for this device connection" []
          else if is_missing feat_reset_and_halt c.device_connect_option used
          then formatted "ERROR: Halt after reset not supported for this device connection" []
          else c.base.ei.info;
      tas_err = err_fn_param;
    }
    else error "ERROR: No device connected" err_device_access

-- The error that an error code of the packet stands for.
unfoldable pub device_connect_error : ℕ → ℕ → ℕ → ServerCon → ErrorInfo
unfolding connect_failed
device_connect_error err used device_type c =
    if err == Err.pl_no_error
    then no_error
    else if err == Err.pl1_dev_access
    then err_no_device_access
    else if err == Err.pl1_dev_locked
    then err_device_is_locked
    else if err == Err.pl1_cmd_failed
    then connect_failed used device_type c
    else err_connection_protocol

unfoldable pub set_pkt_rsp_device_connect : Mem ℕ → ServerCon → DeviceConnection
unfolding handle_pkt_error device_connect_error
set_pkt_rsp_device_connect pkt c =
    if pkt 0 != 4 + 12
    then device_connection 0 0 (handle_pkt_error pkt Cmd.pl1_device_connect) c
    else if byte1 (pkt 1) != Cmd.pl1_device_connect || byte0 (pkt 1) != 12 / 4 - 1
    then device_connection 0 0 err_connection_protocol c
    else device_connection (half0 (pkt 2)) (pkt 3)
        (device_connect_error (byte3 (pkt 1)) (half0 (pkt 2)) (pkt 3) c) c

unfoldable pub get_pkt_rq_device_reset_count : ServerCon → ServerCon
get_pkt_rq_device_reset_count c =
    set_request (blank 4 (bytes4 (4 / 4 - 1) Cmd.pl1_device_reset_count 0 0) c.base.rq_buf) c

-- What `set_pkt_rsp_device_reset_count` returns and sets; none where it leaves `*reset_count`, of
-- which the two fields are `porst` and `reset`.
pub record ResetCount : Type 0 where
  pub ret : TasReturn
  pub handler : ServerCon
  pub reset_count : Option (ℕ × ℕ)

abbrev pub no_count : ServerCon → ResetCount
no_count c = record {
  ret = err_connection_protocol.tas_err;
  handler = set_error err_connection_protocol c;
  reset_count = none;
}

unfoldable pub set_pkt_rsp_device_reset_count : Mem ℕ → ServerCon → ResetCount
set_pkt_rsp_device_reset_count pkt c =
    if pkt 0 != 4 + 12
    then no_count c
    else if byte1 (pkt 1) != Cmd.pl1_device_reset_count || byte0 (pkt 1) != 12 / 4 - 1
    then no_count c
    else if byte3 (pkt 1) != Err.pl_no_error
    then no_count c
    else record {
      ret = no_error.tas_err;
      handler = set_error no_error c;
      reset_count = some (pkt 2, pkt 3);
    }
