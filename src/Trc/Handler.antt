-- ===== src/Trc/Handler.antt =====
-- The packets that CTasPktHandlerTrc builds and parses (src/tas_client/tas_pkt_handler_trc.cpp).
-- A packet is its words in memory.
use tas_client_api.Prelude.{
  ℕ, ◌%◌, Option, none, [], ◌∷◌, ◌||◌, Mem, store, ltb, ◌==◌, ◌!=◌, if◌then◌else◌, byte0, byte1,
  byte2, byte3, bytes4,
}
use tas_client_api.Pkt.Cmd
use tas_client_api.Pkt.Err
use tas_client_api.Pkt.Size
use tas_client_api.ErrorInfo.{
  TasReturn, err_fn_usage, err_fn_not_supported, num, formatted, error, ErrorInfo, no_error,
}
use tas_client_api.Base.Errors.{err_connection_protocol}
use tas_client_api.Chl.Handler.{chso_default, chso_exclusive}

-- `tas_trcs_et`
abbrev pub trcs_cont : ℕ
trcs_cont = 0

abbrev pub trcs_start_ai : ℕ
trcs_start_ai = 4

-- The fields that the base class and this one keep for these packets.
pub record Trc : Type 0 where
  pub ei : ErrorInfo
  pub rq_buf : Mem ℕ
  pub stream : ℕ
  pub chso : ℕ

-- The constructor leaves the buffer and the two fields as they stand in memory.
abbrev pub construct : ErrorInfo → Mem ℕ → ℕ → ℕ → Trc
construct ei rq_buf stream chso = record { ei = ei; rq_buf = rq_buf; stream = stream; chso = chso }

unfoldable pub get_pkt_rq_subscribe : ℕ → ℕ → Trc → Trc
get_pkt_rq_subscribe stream chso t = record t {
  stream = stream;
  chso = chso;
  rq_buf =
      store (store (store t.rq_buf 0 12) 1 (bytes4 1 Cmd.pl1_trc_subscribe 0 0)) 2
        (bytes4 chso stream 0 0);
}

-- `mSetPktRspErrTraceClaimed`
unfoldable pub err_trace_claimed : ℕ → ErrorInfo
err_trace_claimed stream =
    if stream == 0
    then error "ERROR: Continuous trace exclusively claimed by another client" err_fn_usage
    else record {
      info =
          formatted "ERROR: Continuous trace for stream %d exclusively claimed by another client"
            (num stream ∷ []);
      tas_err = err_fn_usage;
    }

-- `mSetPktRspErrTraceNotSupported`
abbrev pub err_trace_not_supported : ErrorInfo
err_trace_not_supported =
    error "ERROR: Continuous trace not supported by this device, access HW or server"
      err_fn_not_supported

-- What `set_pkt_rsp_subscribe` returns and sets.
pub record TrcSubscribed : Type 0 where
  pub ret : TasReturn
  pub handler : Trc
  pub trct : ℕ
  pub chso : ℕ

-- An error leaves the caller's `trct` as it was.
abbrev pub no_trace : ErrorInfo → ℕ → Trc → TrcSubscribed
no_trace ei trct t = record {
  ret = ei.tas_err;
  handler = record t { ei = ei };
  trct = trct;
  chso = chso_default;
}

-- The error of a packet that answers with `err`.
unfoldable pub subscribe_error : ℕ → ℕ → ErrorInfo
subscribe_error err stream =
    if err == Err.pl1_cmd_failed
    then err_trace_claimed stream
    else if err == Err.pl_not_supported
    then err_trace_not_supported
    else err_connection_protocol

-- The tests behind that of the header.
unfoldable pub take_trace : Mem ℕ → ℕ → Trc → TrcSubscribed
take_trace pkt trct t =
    if byte1 (pkt 2) != t.stream
    then no_trace err_connection_protocol trct t
    else if ltb chso_exclusive (byte0 (pkt 2))
    then no_trace err_connection_protocol trct t
    else if byte3 (pkt 1) != Err.pl_no_error
    then no_trace (subscribe_error (byte3 (pkt 1)) t.stream) trct t
    else record {
      ret = no_error.tas_err;
      handler = record t { ei = no_error };
      trct = byte2 (pkt 2);
      chso = byte0 (pkt 2);
    }

unfoldable pub set_pkt_rsp_subscribe : Mem ℕ → ℕ → Trc → TrcSubscribed
unfolding take_trace
set_pkt_rsp_subscribe pkt trct t =
    if pkt 0 != 12
    then no_trace err_connection_protocol trct t
    else if byte1 (pkt 1) != Cmd.pl1_trc_subscribe || byte0 (pkt 1) != 1
    then no_trace err_connection_protocol trct t
    else take_trace pkt trct t

unfoldable pub get_pkt_rq_unsubscribe : ℕ → Trc → Trc
get_pkt_rq_unsubscribe stream t = record t {
  stream = stream;
  rq_buf = store (store t.rq_buf 0 8) 1 (bytes4 0 Cmd.pl1_trc_unsubscribe stream 0);
}

-- An error is noted, and its code returned.
abbrev pub note : ErrorInfo → Trc → TasReturn × Trc
note ei t = (ei.tas_err, record t { ei = ei })

unfoldable pub set_pkt_rsp_unsubscribe : Mem ℕ → Trc → TasReturn × Trc
set_pkt_rsp_unsubscribe pkt t =
    if pkt 0 != 8
    then note err_connection_protocol t
    else if byte1 (pkt 1) != Cmd.pl1_trc_unsubscribe
        || byte0 (pkt 1) != 0
        || byte3 (pkt 1) != Err.pl_no_error
    then note err_connection_protocol t
    else if byte2 (pkt 1) != t.stream
    then note err_connection_protocol t
    else note no_error t

-- What `set_pkt_rcv_trace` returns and sets: `data_at` is the place of the data in the packet.
pub record Traced : Type 0 where
  pub ret : TasReturn
  pub handler : Trc
  pub data_at : Option ℕ
  pub length : ℕ
  pub trcs : ℕ
  pub stream : ℕ

abbrev pub traced : ErrorInfo → ℕ → ℕ → Trc → Traced
traced ei trcs stream t = record {
  ret = ei.tas_err;
  handler = record t { ei = ei };
  data_at = none;
  length = 0;
  trcs = trcs;
  stream = stream;
}

-- Neither `trace_data` nor `length` is set again after the null pointer and 0.
unfoldable pub set_pkt_rcv_trace : Mem ℕ → Trc → Traced
set_pkt_rcv_trace pkt t =
    if ltb (pkt 0) 40 || pkt 0 % 4 != 0 || ltb Size.pl2_max_pkt_size (pkt 0)
    then traced err_connection_protocol trcs_cont 0xFF t
    else if byte1 (pkt 1) != Cmd.pl1_trc_data
        || byte0 (pkt 1) != 0
        || ltb trcs_start_ai (byte3 (pkt 1))
    then traced err_connection_protocol trcs_cont 0xFF t
    else traced no_error (byte3 (pkt 1)) (byte2 (pkt 1)) t
