-- ===== src/Pkt/Err.antt =====
-- src/tas_client/tas_pkt.h: `tas_pl_err_et`, the error codes of the packet levels.
use tas_client_api.Prelude.{ℕ}

abbrev pub pl_no_error : ℕ
pl_no_error = 0x08

abbrev pub pl_param : ℕ
pl_param = 0x10

abbrev pub pl_not_supported : ℕ
pl_not_supported = 0x12

abbrev pub pl_usage : ℕ
pl_usage = 0x14

abbrev pub pl_protocol : ℕ
pl_protocol = 0x1e

abbrev pub pl1_cmd_failed : ℕ
pl1_cmd_failed = 0x20

abbrev pub pl1_server_locked : ℕ
pl1_server_locked = 0x32

abbrev pub pl1_session : ℕ
pl1_session = 0x38

abbrev pub pl1_dev_reset : ℕ
pl1_dev_reset = 0x44

abbrev pub pl1_dev_locked : ℕ
pl1_dev_locked = 0x46

abbrev pub pl1_dev_access : ℕ
pl1_dev_access = 0x48

abbrev pub pl0_no_error : ℕ
pl0_no_error = 0x80

abbrev pub pl0_dev_locked : ℕ
pl0_dev_locked = 0x46

abbrev pub pl0_dev_access : ℕ
pl0_dev_access = 0x48

abbrev pub pl0_acc_mode : ℕ
pl0_acc_mode = 0x89

abbrev pub pl0_addr_map : ℕ
pl0_addr_map = 0x8a

abbrev pub pl0_addr_blocked : ℕ
pl0_addr_blocked = 0x8b

abbrev pub pl0_data : ℕ
pl0_data = 0x8d

abbrev pub pl0_consequential : ℕ
pl0_consequential = 0x98
