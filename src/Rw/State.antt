-- ===== src/Rw/State.antt =====
-- The state of CTasPktHandlerRw, its constructor, and the start and end of a PL2 packet
-- (src/tas_client/tas_pkt_handler_rw.cpp). Assertions are compiled out. An array is a `Mem`: the
-- counters say how far it is filled, and `num_trans_max` how many entries were allocated.
use tas_client_api.Prelude.{
  ℕ, ◌+◌, ◌*◌, ◌/◌, Bool, false, Mem, store, ltb, if◌then◌else◌, u8, u16, u32, sub32, bytes4,
  bytes2_half, halves2,
}
use tas_client_api.Pkt.Cmd
use tas_client_api.Pkt.Size
use tas_client_api.ErrorInfo.{ErrorInfo}
use tas_client_api.ConInfo.{ConInfo}
use tas_client_api.Rw.Trans.{Trans, TransRsp}

abbrev pub buf_allowance : ℕ
buf_allowance = 64

-- `PROTOC_VER` of this class
abbrev pub protoc_ver : ℕ
protoc_ver = 0

pub record Rw : Type 0 where
  -- inherited from CTasPktHandlerBase
  pub ei : ErrorInfo
  pub con_info : ConInfo
  pub rq_buf : Mem ℕ
  pub max_rq_size : ℕ
  pub max_rsp_size : ℕ
  pub rq_wi_max : ℕ
  pub rq_buf_wi : ℕ
  pub pl1_cnt_outstanding_oldest : ℕ
  pub pl1_cnt_outstanding_last : ℕ
  pub device_reset_count : ℕ
  -- the current PL2 packet; `pl0_start` is the word index that the pointer stands for
  pub num_pl2_pkt : ℕ
  pub pl2_hdr_wi : ℕ
  pub pl0_start : ℕ
  pub pl2_num_trans : ℕ
  pub max_wr_data_blk_size_in_pkt_rq : ℕ
  pub max_rd_data_blk_size_in_pkt_rsp : ℕ
  pub rsp_size : ℕ
  pub pl2_rsp_pkt_start : ℕ
  pub pl0_acc_mode : ℕ
  pub pl0_addr_map : ℕ
  pub pl0_addr_map_mask : ℕ
  pub pl0_base_addr : ℕ
  -- transactions of the caller, and on PL0 level
  pub rw_trans : Mem Trans
  pub rw_trans_rsp : Mem TransRsp
  pub rw_num_trans : ℕ
  pub pl0_trans : Mem Trans
  pub pl0_trans_rsp : Mem TransRsp
  pub pl0_num_trans : ℕ
  pub num_trans_max : ℕ
  pub get_pkt_rq_was_called : Bool

-- `mInit`: every field that it sets. The others keep what the fresh object `r` holds; the arrays are
-- new and hold anything, so they are taken from `r`.
unfoldable pub init : Rw → ℕ → ℕ → ℕ → Rw
init r max_rq_size max_rsp_size max_num_rw = record r {
  max_rq_size = sub32 max_rq_size buf_allowance;
  rq_wi_max = sub32 max_rq_size buf_allowance / 4;
  max_rsp_size = sub32 max_rsp_size buf_allowance;
  con_info = record r.con_info {
    max_pl2rq_pkt_size = sub32 max_rq_size buf_allowance;
    max_pl2rsp_pkt_size = sub32 max_rsp_size buf_allowance;
    pl0_max_num_rw = u8 max_num_rw;
  };
  num_trans_max = max_num_rw;
  rq_buf_wi = 0;
  pl0_num_trans = 0;
  pl2_num_trans = 0;
  rw_num_trans = 0;
  rsp_size = 0;
  pl2_rsp_pkt_start = 0;
  pl0_acc_mode = 0;
  pl0_addr_map = 0;
  pl0_base_addr = 0;
  get_pkt_rq_was_called = false;
  device_reset_count = 0;
}

-- `mPl2PktInit`
unfoldable pub pl2_pkt_init : Rw → Rw
pl2_pkt_init r = record r {
  pl2_num_trans = 0;
  pl2_hdr_wi = r.rq_buf_wi;
  pl0_start = u32 (r.rq_buf_wi + 1);
  rq_buf =
      store (store (store r.rq_buf r.rq_buf_wi 0) (u32 (r.rq_buf_wi + 1)) 0) (u32 (r.rq_buf_wi + 2))
        0;
  rq_buf_wi = u32 (r.rq_buf_wi + 3);
  pl2_rsp_pkt_start = r.rsp_size;
  rsp_size = u32 (r.rsp_size + (4 + Size.pl1rsp_pl0_start));
  pl0_acc_mode = 0;
  pl0_addr_map = 0;
  pl0_addr_map_mask = 0;
  pl0_base_addr = 0;
}

-- The headers that `mPktFinalize` writes for the packet that ends: PL0 start, PL0 end, length.
unfoldable pub finalize_headers : Rw → Rw
finalize_headers r = record r {
  num_pl2_pkt = u32 (r.num_pl2_pkt + 1);
  pl1_cnt_outstanding_last = u16 (r.pl1_cnt_outstanding_last + 1);
  rq_buf =
      store
        (store
          (store (store r.rq_buf r.pl0_start (bytes4 1 Cmd.pl1_pl0_start 0xff protoc_ver))
            (u32 (r.pl0_start + 1))
            (halves2 (u16 (r.pl1_cnt_outstanding_last + 1)) r.pl0_addr_map_mask))
          r.rq_buf_wi (bytes2_half 0 Cmd.pl1_pl0_end r.pl0_num_trans))
        r.pl2_hdr_wi (u32 (sub32 (u32 (r.rq_buf_wi + 1)) r.pl2_hdr_wi * 4));
  rq_buf_wi = u32 (r.rq_buf_wi + 1);
  rsp_size = u32 (r.rsp_size + Size.pl1rsp_pl0_end);
}

-- `mPktFinalize`
unfoldable pub pkt_finalize : Bool → Rw → Rw
unfolding finalize_headers pl2_pkt_init
pkt_finalize init_next_pl2_pkt r =
    if init_next_pl2_pkt
    then record (pl2_pkt_init (finalize_headers r)) {
      pl0_addr_map = 0;
      pl0_acc_mode = 0;
      pl0_base_addr = 0;
    }
    else finalize_headers r

-- `if (x > TAS_PL0_DATA_BLK_SIZE) x = TAS_PL0_DATA_BLK_SIZE;`
abbrev pub at_most_blk : ℕ → ℕ
at_most_blk x = if ltb Size.pl0_data_blk_size x then Size.pl0_data_blk_size else x

-- The fields that `rw_start` resets before it begins the first packet.
unfoldable pub clear : Rw → Rw
clear r = record r {
  num_pl2_pkt = 0;
  pl0_acc_mode = 0;
  pl0_addr_map = 0;
  pl0_addr_map_mask = 0;
  pl0_base_addr = 0;
  pl0_num_trans = 0;
  rw_num_trans = 0;
  rq_buf_wi = 0;
  rsp_size = 0;
}

unfoldable pub rw_start : Rw → Rw
unfolding clear pl2_pkt_init
rw_start r = record (pl2_pkt_init (clear r)) {
  pl2_rsp_pkt_start = 0;
  max_wr_data_blk_size_in_pkt_rq = at_most_blk (sub32 r.con_info.max_pl2rq_pkt_size 24);
  max_rd_data_blk_size_in_pkt_rsp = at_most_blk (sub32 r.con_info.max_pl2rsp_pkt_size 24);
  pl1_cnt_outstanding_oldest = u16 (r.pl1_cnt_outstanding_last + 1);
  get_pkt_rq_was_called = false;
}

-- The constructor that takes the connection information of the session.
unfoldable pub construct : Rw → ConInfo → Rw
unfolding init
construct r con_info = record (init r 0x10000 0x10000 con_info.pl0_max_num_rw) {
  con_info = con_info;
}
