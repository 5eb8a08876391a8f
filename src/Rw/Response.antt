-- ===== src/Rw/Response.antt =====
-- The parser of responses: `rw_set_rsp` and its helpers (src/tas_client/tas_pkt_handler_rw.cpp).
-- `rsp` is the response as words in memory, `host` the caller's memory, which reads fill. The loop
-- takes fuel, and `none` means that it ran out.
use tas_client_api.Prelude.{
  ℕ, zero, suc, ◌+◌, ◌*◌, ◌/◌, ◌%◌, Option, none, some, ◌&&◌, ◌||◌, Mem, store, ltb, leb, ◌==◌,
  ◌!=◌, if◌then◌else◌, u8, u16, u32, u64, byte0, byte1, byte2, byte3, half1, memcpy_from_words,
}
use tas_client_api.Pkt.Cmd
use tas_client_api.Pkt.Err
use tas_client_api.Pkt.Size
use tas_client_api.ErrorInfo.{
  TasReturn, err_rw_read, err_rw_write, err_server_con, ErrorInfo, no_error,
}
use tas_client_api.Base.Errors.{err_connection_protocol, err_device_access_failed}
use tas_client_api.Rw.Trans.{Trans, tt_rd, tt_wr, tt_fill}
use tas_client_api.Rw.State.{Rw}
use tas_client_api.Rw.Report.{
  pl0_cmd_is_rd, pl0_cmd_is_wr_or_fill, set_rsp_err_pl0_data, err_pl1_cnt,
}

-- The locals of `rw_set_rsp`, with the object and the caller's memory.
pub record Parse : Type 0 where
  pub rw : Rw
  pub host : Mem ℕ
  pub wi : ℕ
  pub pkt_start_next : ℕ
  pub i_trans : ℕ

-- A round of the loop returns or breaks, or goes on.
pub data Step : Type 0 where
  stop go : Parse → Step

-- `return` of an error setter.
abbrev pub fail : ErrorInfo → Parse → Step
fail ei s = stop (record s { rw = record s.rw { ei = ei } })

-- The start of a PL2 packet, with TAS_PL1_CMD_PL0_START.
unfoldable pub start_step : Mem ℕ → Parse → Step
start_step rsp s =
    let size = rsp s.wi in
    let header = rsp (u32 (s.wi + 1)) in
    let s1 : Parse = record s { pkt_start_next = u32 (s.pkt_start_next + size / 4) } in
    let s2 : Parse = record s1 { wi = u32 (s.wi + (4 + Size.pl1rsp_pl0_end) / 4) } in
    if size % 4 != 0 || ltb s.rw.max_rsp_size size
    then fail err_connection_protocol s
    else if byte0 header != 0 || byte1 header != Cmd.pl1_pl0_start
    then fail err_connection_protocol s1
    else if byte3 header == Err.pl1_dev_access
    then fail err_device_access_failed s1
    else if byte3 header == Err.pl1_dev_reset
    then go
        (record s2 { rw = record s.rw { device_reset_count = u32 (s.rw.device_reset_count + 1) } })
    else if byte3 header != Err.pl_no_error
    then fail err_connection_protocol s1
    else go s2

-- TAS_PL1_CMD_PL0_END
unfoldable pub end_step : Mem ℕ → Parse → Step
end_step rsp s =
    let s1 : Parse = record s { wi = u32 (s.wi + Size.pl1rsp_pl0_end / 4) } in
    if byte0 (rsp s.wi) != 0
    then fail err_connection_protocol s
    else if half1 (rsp s.wi) != s.rw.pl1_cnt_outstanding_oldest
    then fail err_pl1_cnt s
    else if s.i_trans == s.rw.pl0_num_trans
    then stop s1
    else go (record s1 {
      rw = record s.rw { pl1_cnt_outstanding_oldest = u16 (s.rw.pl1_cnt_outstanding_oldest + 1) };
    })

-- `mPl0TransRsp[iTrans]` is set.
abbrev pub answer : ℕ → ℕ → Parse → Parse
answer num_bytes_ok pl_err s = record s {
  rw = record s.rw {
    pl0_trans_rsp =
        store s.rw.pl0_trans_rsp s.i_trans
          (record { num_bytes_ok = num_bytes_ok; pl_err = pl_err });
  };
}

-- Only its `pl_err` is set.
abbrev pub mark : ℕ → Parse → Parse
mark pl_err s = answer (s.rw.pl0_trans_rsp s.i_trans).num_bytes_ok pl_err s

abbrev pub report : ℕ → TasReturn → ℕ → Parse → Parse
report pl_err tas_err wl s =
    let t = s.rw.pl0_trans s.i_trans in
    record s {
      rw = record s.rw {
        ei = set_rsp_err_pl0_data s.rw.ei pl_err tas_err (u64 (t.addr + wl * 4)) t.addr_map;
      };
    }

-- `wi += n; iTrans++;`
abbrev pub next_trans : ℕ → Parse → Step
next_trans n s = go (record s { wi = u32 (s.wi + n); i_trans = u32 (s.i_trans + 1) })

-- `wlrwNoErr`
abbrev pub wl_no_err : Trans → ℕ
wl_no_err t = u16 (u32 (t.num_bytes + 3) / 4)

-- The answer to a write or a fill, with `w` its only word.
unfoldable pub wr_step : ℕ → Parse → Step
unfolding set_rsp_err_pl0_data
wr_step w s =
    let t = s.rw.pl0_trans s.i_trans in
    let err = byte3 w in
    let wlwr = byte2 w in
    if byte0 w != 0
    then fail err_connection_protocol s
    else if t.type != tt_wr && t.type != tt_fill
    then fail err_connection_protocol s
    else if err != Err.pl0_no_error
    then if (if byte1 w == Cmd.pl0_wrblk then leb (wl_no_err t) wlwr else wlwr != 0)
      then fail err_connection_protocol (mark err s)
      else next_trans 1 (
          report err err_rw_write wlwr
            (answer (if byte1 w == Cmd.pl0_wrblk then wlwr * 4 else 0) err s))
    else if wlwr != u8 (u32 (t.num_bytes + 3) / 4)
    then fail err_connection_protocol s
    else next_trans 1 (answer (u16 t.num_bytes) Err.pl0_no_error s)

-- `n` bytes after the header go to the buffer of the transaction.
abbrev pub copy : Mem ℕ → ℕ → Parse → Parse
copy rsp n s = record s {
  host = memcpy_from_words rsp (4 * u32 (s.wi + 1)) n s.host (s.rw.pl0_trans s.i_trans).buf;
}

-- The answer to a read, with `w` its first word.
unfoldable pub rd_step : Mem ℕ → ℕ → Parse → Step
unfolding set_rsp_err_pl0_data
rd_step rsp w s =
    let t = s.rw.pl0_trans s.i_trans in
    let err = byte3 w in
    let wlrd = byte2 w in
    let n_err = if byte1 w == Cmd.pl0_rdblk then wlrd * 4 else 0 in
    if byte0 w != wlrd
    then fail err_connection_protocol s
    else if t.type != tt_rd
    then fail err_connection_protocol s
    else if byte1 w == Cmd.pl0_rdblk1kb
    then if wl_no_err t != 0x100 || byte0 w != 0 || wlrd != 0 || err != Err.pl0_no_error
      then fail err_connection_protocol s
      else next_trans 257
          (copy rsp Size.pl0_data_blk_size (answer Size.pl0_data_blk_size Err.pl0_no_error s))
    else if err != Err.pl0_no_error
    then if (if byte1 w == Cmd.pl0_rdblk then ltb (wl_no_err t) wlrd else wlrd != 0)
      then fail err_connection_protocol s
      else next_trans (1 + byte0 w)
          (copy rsp n_err (report err err_rw_read wlrd (answer n_err err s)))
    else if wlrd != u8 (u32 (t.num_bytes + 3) / 4)
    then fail err_connection_protocol s
    else next_trans (1 + byte0 w)
        (copy rsp (u16 t.num_bytes) (answer (u16 t.num_bytes) Err.pl0_no_error s))

-- The body of the loop.
unfoldable pub step : Mem ℕ → Parse → Step
unfolding start_step end_step wr_step rd_step
step rsp s =
    if s.wi == s.pkt_start_next
    then start_step rsp s
    else if byte1 (rsp s.wi) == Cmd.pl1_pl0_end
    then end_step rsp s
    else if pl0_cmd_is_wr_or_fill (byte1 (rsp s.wi))
    then wr_step (rsp s.wi) s
    else if pl0_cmd_is_rd (byte1 (rsp s.wi))
    then rd_step rsp (rsp s.wi) s
    else fail err_connection_protocol s

-- A round that goes on goes on with the rest of the loop.
abbrev pub resume : (Parse → Option Parse) → Step → Option Parse
resume rest (stop s) = some s
resume rest (go s) = rest s

-- `while (wi < wiMax) { … }`
unfoldable pub rsp_loop : Mem ℕ → ℕ → ℕ → Parse → Option Parse
rsp_loop rsp wi_max zero s = none
rsp_loop rsp wi_max (suc fuel) s =
    if ltb s.wi wi_max then resume (λ x. rsp_loop rsp wi_max fuel x) (step rsp s) else some s

-- What `rw_set_rsp` returns, and what it leaves.
pub record SetRsp : Type 0 where
  pub ret : TasReturn
  pub rw : Rw
  pub host : Mem ℕ

abbrev pub finish : Option Parse → Option SetRsp
finish none = none
finish (some s) = some (record { ret = s.rw.ei.tas_err; rw = s.rw; host = s.host })

-- The state in which the loop begins.
abbrev pub begin : Rw → Mem ℕ → Parse
begin r host = record {
  rw = record r { ei = no_error };
  host = host;
  wi = 0;
  pkt_start_next = 0;
  i_trans = 0;
}

unfoldable pub rw_set_rsp : ℕ → Mem ℕ → ℕ → Rw → Mem ℕ → Option SetRsp
unfolding rsp_loop
rw_set_rsp fuel rsp num_bytes r host =
    if ltb num_bytes 8 || num_bytes % 4 != 0 || ltb r.rsp_size num_bytes
    then some (record {
      ret = err_server_con;
      rw = record r { ei = err_connection_protocol };
      host = host;
    })
    else finish (rsp_loop rsp (num_bytes / 4) fuel (begin r host))
