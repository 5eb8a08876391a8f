-- ===== src/Rw/Trans.antt =====
-- src/tas_client/tas_client.h: `tas_rw_trans_st` and `tas_rw_trans_rsp_st`.
use tas_client_api.Prelude.{ℕ}

-- `tas_rw_trans_type_et`
abbrev pub tt_rd : ℕ
tt_rd = 1

abbrev pub tt_wr : ℕ
tt_wr = 2

abbrev pub tt_fill : ℕ
tt_fill = 6

-- `data` is the union of `wdata` and `rdata`: an address in the caller's memory, 0 for `nullptr`.
pub record Trans : Type 0 where
  pub addr : ℕ
  pub num_bytes : ℕ
  pub acc_mode : ℕ
  pub addr_map : ℕ
  pub type : ℕ
  pub buf : ℕ

pub record TransRsp : Type 0 where
  pub num_bytes_ok : ℕ
  pub pl_err : ℕ
