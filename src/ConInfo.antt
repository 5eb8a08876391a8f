-- ===== src/ConInfo.antt =====
-- src/tas_client/tas_pkt.h: `tas_con_info_st`. The four words of `device_id` are a list, the
-- identifier is its 16 words as they stand in the packet.
use tas_client_api.Prelude.{ℕ, ◌≤◌, List, []}

pub record ConInfo : Type 0 where
  pub max_pl2rq_pkt_size : ℕ
  pub max_pl2rsp_pkt_size : ℕ
  pub device_type : ℕ
  pub device_id : List ℕ
  pub ipv4_addr : ℕ
  pub dev_con_feat : ℕ
  pub dev_con_phys : ℕ
  pub pl0_max_num_rw : ℕ
  pub pl0_rw_mode_mask : ℕ
  pub pl0_addr_map_mask : ℕ
  pub msg_length_c2d : ℕ
  pub msg_length_d2c : ℕ
  pub msg_num_c2d : ℕ
  pub msg_num_d2c : ℕ
  pub identifier : List ℕ
  pub device_id_hash : ℕ
  -- The character codes of `device_id_hash_str`.
  pub device_id_hash_str : List ℕ

-- `mConInfo = {}`
abbrev pub empty : ConInfo
empty = record {
  max_pl2rq_pkt_size = 0;
  max_pl2rsp_pkt_size = 0;
  device_type = 0;
  device_id = [];
  ipv4_addr = 0;
  dev_con_feat = 0;
  dev_con_phys = 0;
  pl0_max_num_rw = 0;
  pl0_rw_mode_mask = 0;
  pl0_addr_map_mask = 0;
  msg_length_c2d = 0;
  msg_length_d2c = 0;
  msg_num_c2d = 0;
  msg_num_d2c = 0;
  identifier = [];
  device_id_hash = 0;
  device_id_hash_str = [];
}

-- The connection information is one that `set_pkt_rsp_ping` accepts: packet sizes of at least
-- TAS_PL2_MAX_PKT_SIZE_MIN and at most TAS_PL2_MAX_PKT_SIZE.
pub record IsAgreed (i : ConInfo) : Type 0 where
  pub rq_min : 128 ≤ i.max_pl2rq_pkt_size
  pub rq_max : i.max_pl2rq_pkt_size ≤ 0x10008
  pub rsp_min : 128 ≤ i.max_pl2rsp_pkt_size
  pub rsp_max : i.max_pl2rsp_pkt_size ≤ 0x10008
