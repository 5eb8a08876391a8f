-- ===== src/Rw/Report.antt =====
-- The commands of responses, and the errors that `rw_set_rsp` notes
-- (src/tas_client/tas_pkt_handler_rw.cpp).
use tas_client_api.Prelude.{ℕ, Bool, ◌||◌, ◌==◌, if◌then◌else◌, String, [], ◌∷◌}
use tas_client_api.Pkt.Cmd
use tas_client_api.Pkt.Err
use tas_client_api.ErrorInfo.{
  TasReturn, err_rw_read, err_server_con, err_device_access, err_device_locked, is_err, num, str,
  in_addr_map, formatted, ErrorInfo, error,
}

-- `ctprhcPl0CmdIsRd`
unfoldable pub pl0_cmd_is_rd : ℕ → Bool
pl0_cmd_is_rd cmd =
    cmd == Cmd.pl0_rd8
    || cmd == Cmd.pl0_rd16
    || cmd == Cmd.pl0_rd32
    || cmd == Cmd.pl0_rd64
    || cmd == Cmd.pl0_rdblk
    || cmd == Cmd.pl0_rdblk1kb

-- `ctprhcPl0CmdIsWrOrFill`
unfoldable pub pl0_cmd_is_wr_or_fill : ℕ → Bool
pl0_cmd_is_wr_or_fill cmd =
    cmd == Cmd.pl0_wr8
    || cmd == Cmd.pl0_wr16
    || cmd == Cmd.pl0_wr32
    || cmd == Cmd.pl0_wr64
    || cmd == Cmd.pl0_wrblk
    || cmd == Cmd.pl0_fill

abbrev type_str : TasReturn → String
type_str err_rw_read = "Read"
type_str _ = "Write"

-- What `mSetPktRspErrPl0Data` formats when no error is noted yet.
unfoldable pub pl0_data_error : ℕ → TasReturn → ℕ → ℕ → ErrorInfo
pl0_data_error pl_err tas_err addr addr_map =
    if pl_err == Err.pl0_data
    then record {
      info =
          formatted "ERROR: %s of addr %X %sfailed"
            (str (type_str tas_err) ∷ num addr ∷ in_addr_map addr_map ∷ []);
      tas_err = tas_err;
    }
    else if pl_err == Err.pl0_dev_locked
    then error "ERROR: Device is locked" err_device_locked
    else if pl_err == Err.pl0_dev_access
    then error "ERROR: Device access failed" err_device_access
    else if pl_err == Err.pl0_acc_mode
    then record {
      info =
          formatted "ERROR: Set acc_mode not supported for %s of addr %X %s"
            (str (type_str tas_err) ∷ num addr ∷ in_addr_map addr_map ∷ []);
      tas_err = tas_err;
    }
    else if pl_err == Err.pl0_addr_map
    then record {
      info = formatted "ERROR: addr_map %d not supported" (num addr_map ∷ []);
      tas_err = tas_err;
    }
    else if pl_err == Err.pl0_addr_blocked
    then record {
      info =
          formatted "ERROR: %s of addr %X %swas blocked"
            (str (type_str tas_err) ∷ num addr ∷ in_addr_map addr_map ∷ []);
      tas_err = tas_err;
    }
    else record {
      info =
          formatted "ERROR: %s of addr %X %sreturned code 0x%2.2X"
            (str (type_str tas_err) ∷ num addr ∷ in_addr_map addr_map ∷ num pl_err ∷ []);
      tas_err = tas_err;
    }

-- `mSetPktRspErrPl0Data`: the first error is captured.
unfoldable pub set_rsp_err_pl0_data : ErrorInfo → ℕ → TasReturn → ℕ → ℕ → ErrorInfo
unfolding pl0_data_error
set_rsp_err_pl0_data ei pl_err tas_err addr addr_map =
    if is_err ei.tas_err then ei else pl0_data_error pl_err tas_err addr addr_map

-- `mSetPktRspErrPl1Cnt`
abbrev pub err_pl1_cnt : ErrorInfo
err_pl1_cnt = error "ERROR: Server connection protocol (PL1 packet count)" err_server_con
