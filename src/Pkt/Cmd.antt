-- ===== src/Pkt/Cmd.antt =====
-- src/tas_client/tas_pkt.h: `tas_pl_cmd_et`, the command identifiers of the packets.
use tas_client_api.Prelude.{ℕ}

abbrev pub pl0_access_mode : ℕ
pl0_access_mode = 0x10

abbrev pub pl0_addr_map : ℕ
pl0_addr_map = 0x11

abbrev pub pl0_base_addr32 : ℕ
pl0_base_addr32 = 0x15

abbrev pub pl0_base_addr64 : ℕ
pl0_base_addr64 = 0x16

abbrev pub pl0_wr8 : ℕ
pl0_wr8 = 0x20

abbrev pub pl0_rd8 : ℕ
pl0_rd8 = 0x21

abbrev pub pl0_wr16 : ℕ
pl0_wr16 = 0x22

abbrev pub pl0_rd16 : ℕ
pl0_rd16 = 0x23

abbrev pub pl0_wr32 : ℕ
pl0_wr32 = 0x24

abbrev pub pl0_rd32 : ℕ
pl0_rd32 = 0x25

abbrev pub pl0_wr64 : ℕ
pl0_wr64 = 0x26

abbrev pub pl0_rd64 : ℕ
pl0_rd64 = 0x27

abbrev pub pl0_wrblk : ℕ
pl0_wrblk = 0x2a

abbrev pub pl0_fill : ℕ
pl0_fill = 0x2b

abbrev pub pl0_rdblk : ℕ
pl0_rdblk = 0x2c

abbrev pub pl0_rdblk1kb : ℕ
pl0_rdblk1kb = 0x2d

abbrev pub pl1_server_connect : ℕ
pl1_server_connect = 0x80

abbrev pub pl1_get_targets : ℕ
pl1_get_targets = 0x86

abbrev pub pl1_get_clients : ℕ
pl1_get_clients = 0x87

abbrev pub pl1_session_start : ℕ
pl1_session_start = 0xa1

abbrev pub pl1_ping : ℕ
pl1_ping = 0xa2

abbrev pub pl1_device_connect : ℕ
pl1_device_connect = 0xa8

abbrev pub pl1_device_reset_count : ℕ
pl1_device_reset_count = 0xaa

abbrev pub pl1_set_device_key : ℕ
pl1_set_device_key = 0xad

abbrev pub pl1_pl0_start : ℕ
pl1_pl0_start = 0xb0

abbrev pub pl1_pl0_end : ℕ
pl1_pl0_end = 0xb1

abbrev pub pl1_chl_subscribe : ℕ
pl1_chl_subscribe = 0xc0

abbrev pub pl1_chl_unsubscribe : ℕ
pl1_chl_unsubscribe = 0xc2

abbrev pub pl1_chl_msg_c2d : ℕ
pl1_chl_msg_c2d = 0xcc

abbrev pub pl1_chl_msg_d2c : ℕ
pl1_chl_msg_d2c = 0xcd

abbrev pub pl1_trc_subscribe : ℕ
pl1_trc_subscribe = 0xd0

abbrev pub pl1_trc_unsubscribe : ℕ
pl1_trc_unsubscribe = 0xd2

abbrev pub pl1_trc_data : ℕ
pl1_trc_data = 0xd4
