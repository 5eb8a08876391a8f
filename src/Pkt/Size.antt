-- ===== src/Pkt/Size.antt =====
-- src/tas_client/tas_pkt.h: the limits of the protocol, and `sizeof` of the packet structures.
use tas_client_api.Prelude.{ℕ}

abbrev pub pl2_max_pkt_size : ℕ
pl2_max_pkt_size = 0x10008

abbrev pub pl2_max_pkt_size_min : ℕ
pl2_max_pkt_size_min = 128

abbrev pub pl0_data_blk_size : ℕ
pl0_data_blk_size = 1024

abbrev pub pl1_chl_max_msg_size : ℕ
pl1_chl_max_msg_size = 1024

abbrev pub pl1rq_pl0_start : ℕ
pl1rq_pl0_start = 8

abbrev pub pl1rsp_pl0_start : ℕ
pl1rsp_pl0_start = 4

abbrev pub pl1rq_pl0_end : ℕ
pl1rq_pl0_end = 4

abbrev pub pl1rsp_pl0_end : ℕ
pl1rsp_pl0_end = 4

abbrev pub pl0rq_acc_mode : ℕ
pl0rq_acc_mode = 4

abbrev pub pl0rq_addr_map : ℕ
pl0rq_addr_map = 4

abbrev pub pl0rq_base_addr32 : ℕ
pl0rq_base_addr32 = 4

abbrev pub pl0rq_base_addr64 : ℕ
pl0rq_base_addr64 = 8

abbrev pub pl0rq_wrblk : ℕ
pl0rq_wrblk = 4

abbrev pub pl0rq_fill : ℕ
pl0rq_fill = 16

abbrev pub pl0rq_rdblk : ℕ
pl0rq_rdblk = 8

abbrev pub pl0rsp_wr : ℕ
pl0rsp_wr = 4

abbrev pub pl0rsp_rd : ℕ
pl0rsp_rd = 4
