-- ===== src/Base/Ping.antt =====
-- `set_pkt_rsp_ping`, `mHandlePktError` and `get_pkt_rq_ping` of CTasPktHandlerBase
-- (src/tas_client/tas_pkt_handler_base.cpp). A packet is its words in memory: word 0 is the PL2
-- length, word 1 the PL1 header, and the connection information of a ping begins at word 3.
use tas_client_api.Prelude.{
  ℕ, ◌+◌, ◌-◌, ◌/◌, ◌%◌, Bool, ◌&&◌, ◌||◌, not, Mem, store, entries, ltb, ◌==◌, ◌!=◌, if◌then◌else◌,
  byte0, byte1, byte2, byte3, half0, half1, bytes4, List, [], ◌∷◌,
}
use tas_client_api.Pkt.Err
use tas_client_api.Pkt.Size
use tas_client_api.ErrorInfo.{
  TasReturn, err_none, err_fn_usage, err_fn_not_supported, err_fn_param, err_general, err_chl_setup,
  err_device_access, ErrorInfo, error, no_error,
}
use tas_client_api.ConInfo
use tas_client_api.ConInfo.{ConInfo}
use tas_client_api.Base.Errors.{err_connection_protocol}
use tas_client_api.Utils.Hash.{crc32, hash32_to_str}

-- `tas_client_type_et`
pub data ClientType : Type 0 where
  client_unknown client_rw client_chl client_trc : ClientType

-- The fields of CTasPktHandlerBase that these functions use.
pub record Base : Type 0 where
  pub ei : ErrorInfo
  pub con_info : ConInfo
  pub rq_buf : Mem ℕ

-- `PROTOC_VER` of this class
abbrev pub protoc_ver : ℕ
protoc_ver = 1

-- `sizeof(tas_pl1rsp_ping_d2s_st)` and `sizeof(tas_pl1rsp_ping_st)`
abbrev pub ping_size : ClientType → ℕ
ping_size client_unknown = 56
ping_size _ = 132

-- `mHandlePktError`: the error that it sets.
unfoldable pub handle_pkt_error : Mem ℕ → ℕ → ErrorInfo
handle_pkt_error pkt cmd =
    if pkt 0 == 8 && byte1 (pkt 1) == cmd
    then (if byte3 (pkt 1) == Err.pl_usage
        then error "ERROR: Wrong TAS API usage" err_fn_usage
        else if byte3 (pkt 1) == Err.pl_not_supported
        then error "ERROR: Function is not supported" err_fn_not_supported
        else if byte3 (pkt 1) == Err.pl1_cmd_failed
        then error "ERROR: Function failed at TasServer" err_general
        else error "ERROR: Unknown error" err_general)
    else err_connection_protocol

-- The connection information of the packet, with the hash that the client calculates. The hash of a
-- device without an identifier is 0, and its string is "NoUid".
unfoldable pub con_info_of : Mem ℕ → ConInfo
unfolding entries crc32 hash32_to_str
con_info_of pkt =
    let id : List ℕ = entries pkt 6 4 in
    let no_id = pkt 6 == 0 && pkt 7 == 0 && pkt 8 == 0 && pkt 9 == 0 in
    record {
      max_pl2rq_pkt_size = pkt 3;
      max_pl2rsp_pkt_size = pkt 4;
      device_type = pkt 5;
      device_id = id;
      ipv4_addr = pkt 10;
      dev_con_feat = half0 (pkt 11);
      dev_con_phys = byte2 (pkt 11);
      pl0_max_num_rw = byte3 (pkt 11);
      pl0_rw_mode_mask = half0 (pkt 12);
      pl0_addr_map_mask = half1 (pkt 12);
      msg_length_c2d = half0 (pkt 13);
      msg_length_d2c = half1 (pkt 13);
      msg_num_c2d = byte0 (pkt 14);
      msg_num_d2c = byte1 (pkt 14);
      identifier = entries pkt 15 16;
      device_id_hash = if no_id then 0 else crc32 id;
      device_id_hash_str =
          if no_id then 78 ∷ 111 ∷ 85 ∷ 105 ∷ 100 ∷ [] else hash32_to_str (crc32 id);
    }

-- A size of a PL2 packet that the client does not accept.
abbrev pub is_bad_pkt_size : ℕ → Bool
is_bad_pkt_size n = n % 4 != 0 || ltb n Size.pl2_max_pkt_size_min || ltb Size.pl2_max_pkt_size n

abbrev pub is_bad_msg_length : ℕ → Bool
is_bad_msg_length n = n % 4 != 0 || ltb Size.pl1_chl_max_msg_size n

abbrev pub cmd_failed : ClientType → ErrorInfo
cmd_failed client_chl = error "ERROR: Could not read channel description from device" err_chl_setup
cmd_failed _ = error "ERROR: Target not connected" err_device_access

abbrev pub is_ping_err : ℕ → Bool
is_ping_err err =
    err == Err.pl_no_error
    || err == Err.pl1_cmd_failed
    || err == Err.pl1_session
    || err == Err.pl_not_supported

-- `mConInfo = {}`, and an error.
abbrev pub refuse : ErrorInfo → Base → TasReturn × Base
refuse ei b = (ei.tas_err, record b { ei = ei; con_info = ConInfo.empty })

-- The last branch: a ping without error, whose sizes are checked before it is taken.
unfoldable pub take_con_info : Mem ℕ → Base → TasReturn × Base
unfolding con_info_of
take_con_info pkt b =
    if is_bad_pkt_size (pkt 3)
    then refuse err_connection_protocol b
    else if is_bad_pkt_size (pkt 4)
    then refuse err_connection_protocol b
    else if is_bad_msg_length (half0 (pkt 13))
    then refuse err_connection_protocol b
    else if is_bad_msg_length (half1 (pkt 13))
    then refuse err_connection_protocol b
    else (err_none, record b { ei = no_error; con_info = con_info_of pkt })

-- What `set_pkt_rsp_ping` does with an error code of the packet.
unfoldable pub take_ping : ClientType → ℕ → Mem ℕ → Base → TasReturn × Base
unfolding take_con_info
take_ping client_type err pkt b =
    if not (is_ping_err err)
    then refuse err_connection_protocol b
    else if err == Err.pl1_session
    then refuse (error "ERROR: Session name or password" err_fn_param) b
    else if err == Err.pl_not_supported
    then refuse (error "ERROR: Parameter refused by server" err_fn_param) b
    else if err == Err.pl1_cmd_failed
    then refuse (cmd_failed client_type) b
    else take_con_info pkt b

unfoldable pub set_pkt_rsp_ping : ℕ → ClientType → Mem ℕ → Base → TasReturn × Base
unfolding handle_pkt_error take_ping
set_pkt_rsp_ping cmd client_type pkt b =
    if pkt 0 != 4 + ping_size client_type
    then refuse (handle_pkt_error pkt cmd) b
    else if byte1 (pkt 1) != cmd || byte0 (pkt 1) != ping_size client_type / 4 - 1
    then refuse err_connection_protocol b
    else if ltb protoc_ver (byte0 (pkt 2)) || ltb (byte1 (pkt 2)) protoc_ver
    then refuse err_connection_protocol b
    else take_ping client_type (byte3 (pkt 1)) pkt b

-- `get_pkt_rq_ping`
unfoldable pub get_pkt_rq_ping : ℕ → Base → Base
get_pkt_rq_ping cmd b = record b {
  rq_buf = store (store b.rq_buf 0 (4 + 4)) 1 (bytes4 (4 / 4 - 1) cmd 0 0);
}
