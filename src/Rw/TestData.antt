-- ===== src/Rw/TestData.antt =====
-- Values for the tests of CTasPktHandlerRw.
use tas_client_api.Prelude.{
  ℕ, zero, suc, none, some, false, List, [], ◌∷◌, get_or, Mem, Option, Bool,
}
use tas_client_api.ErrorInfo.{no_error, err_general}
use tas_client_api.ConInfo
use tas_client_api.ConInfo.{ConInfo}
use tas_client_api.Base.Ping.{Base}
use tas_client_api.Rw.Trans.{Trans, TransRsp, tt_rd, tt_wr}
use tas_client_api.Rw.State.{Rw, construct, rw_start}
use tas_client_api.Rw.Response.{SetRsp}

abbrev pub no_trans : Mem Trans
no_trans i = record { addr = 0; num_bytes = 0; acc_mode = 0; addr_map = 0; type = 0; buf = 0 }

abbrev pub no_rsp : Mem TransRsp
no_rsp i = record { num_bytes_ok = 0; pl_err = 0 }

-- Fresh memory, all zero but for the count of outstanding requests.
abbrev pub blank : Rw
blank = record {
  ei = no_error;
  con_info = ConInfo.empty;
  rq_buf = λ i. 0;
  max_rq_size = 0;
  max_rsp_size = 0;
  rq_wi_max = 0;
  rq_buf_wi = 0;
  pl1_cnt_outstanding_oldest = 0;
  pl1_cnt_outstanding_last = 0xffc0;
  device_reset_count = 0;
  num_pl2_pkt = 0;
  pl2_hdr_wi = 0;
  pl0_start = 0;
  pl2_num_trans = 0;
  max_wr_data_blk_size_in_pkt_rq = 0;
  max_rd_data_blk_size_in_pkt_rsp = 0;
  rsp_size = 0;
  pl2_rsp_pkt_start = 0;
  pl0_acc_mode = 0;
  pl0_addr_map = 0;
  pl0_addr_map_mask = 0;
  pl0_base_addr = 0;
  rw_trans = no_trans;
  rw_trans_rsp = no_rsp;
  rw_num_trans = 0;
  pl0_trans = no_trans;
  pl0_trans_rsp = no_rsp;
  pl0_num_trans = 0;
  num_trans_max = 0;
  get_pkt_rq_was_called = false;
}

abbrev pub small_info : ConInfo
small_info = record ConInfo.empty {
  max_pl2rq_pkt_size = 128;
  max_pl2rsp_pkt_size = 128;
  pl0_max_num_rw = 255;
}

abbrev pub session : Rw
session = rw_start (construct blank small_info)

abbrev pub result : Option (Bool × Rw) → Rw
result none = blank
result (some (b, r)) = r

-- A read of four bytes, and a write of two.
abbrev pub two_trans : Mem Trans
two_trans zero = record {
  addr = 0x7000_0000;
  num_bytes = 4;
  acc_mode = 0;
  addr_map = 0;
  type = tt_rd;
  buf = 0x100;
}
two_trans (suc zero) = record {
  addr = 0x7000_0010;
  num_bytes = 2;
  acc_mode = 0;
  addr_map = 0;
  type = tt_wr;
  buf = 0x200;
}
two_trans (suc (suc i)) = no_trans i

-- The object that waits for the response to these two.
abbrev pub waiting : Rw
waiting = record blank {
  max_rsp_size = 0xffc0;
  rsp_size = 24;
  pl1_cnt_outstanding_oldest = 5;
  pl0_trans = two_trans;
  pl0_num_trans = 2;
}

abbrev pub words : List ℕ → Mem ℕ
words ws i = get_or ws i 0

-- Start, the word read, the answer to the write, end.
abbrev pub reply : Mem ℕ
reply = words (24 ∷ 0x0800_b000 ∷ 0x8001_2501 ∷ 0x1122_3344 ∷ 0x8001_2200 ∷ 0x0005_b100 ∷ [])

abbrev pub no_host : Mem ℕ
no_host p = 0

abbrev pub the : Option SetRsp → SetRsp
the none = record { ret = err_general; rw = blank; host = no_host }
the (some x) = x

-- The answer to a ping: packets of 1 KB, and no device.
abbrev pub ping : Mem ℕ
ping = words (136 ∷ 0x0800_a220 ∷ 0x0000_0101 ∷ 1024 ∷ 1024 ∷ [])

abbrev pub fresh : Base
fresh = record { ei = no_error; con_info = ConInfo.empty; rq_buf = no_host }
