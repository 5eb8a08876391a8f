-- ===== src/Rw/StepsIf.antt =====
-- The interface between the splitting of an access and the packets that it adds
-- (src/tas_client/tas_pkt_handler_rw.cpp).
use tas_client_api.Prelude.{ℕ, ◌+◌, ◌*◌, ◌%◌, ◌^◌, ◌≤◌, ◌<◌, ◌≡◌, ◌≢◌, true}
use tas_client_api.Rw.State.{Rw, pkt_finalize}
use tas_client_api.Rw.Split.{Steps}
use tas_client_api.Rw.Frame.{Limits, limits}
use tas_client_api.Rw.Laws.{Adds, trans}

-- Packets of at least 128 bytes (TAS_PL2_MAX_PKT_SIZE_MIN), buffers of at least as much, and blocks
-- of at most 1 KB.
pub record IsConfigured (l : Limits) : Type 0 where
  pub rq_pkt : 128 ≤ l.con_info.max_pl2rq_pkt_size
  pub rsp_pkt : 128 ≤ l.con_info.max_pl2rsp_pkt_size
  pub rq_buf : 128 ≤ l.rq_wi_max * 4
  pub rq_small : l.rq_wi_max * 4 < 2 ^ 32
  pub rsp_buf : 128 ≤ l.max_rsp_size
  pub wr_min : 8 ≤ l.max_wr_data_blk_size_in_pkt_rq
  pub wr_max : l.max_wr_data_blk_size_in_pkt_rq ≤ 1024
  pub rd_min : 8 ≤ l.max_rd_data_blk_size_in_pkt_rsp
  pub rd_max : l.max_rd_data_blk_size_in_pkt_rsp ≤ 1024

-- What a block size promises: whole 64 bit words, at most 1 KB and at most what is left.
abbrev pub IsBlock : ℕ → ℕ → Type 0
IsBlock n nb = (n ≤ nb) × (n ≤ 1024) × (n % 8 ≡ 0)

-- The interface between the splitting and the packets: what it needs of `add` and `blk_size`.
pub record StepsLaws (s : Steps) (am m type : ℕ) : Type 0 where
  pub adds :
      (r : Rw) (a n d : ℕ)
      → n ≢ 0
      → r.pl0_num_trans + 1 < 2 ^ 32
      → Adds r (s.add r a n d) (trans a n am m type d)
  pub adds_nothing : (r : Rw) (a d : ℕ) → s.add r a 0 d ≡ r
  pub block : (r : Rw) (nb a : ℕ) → IsConfigured (limits r) → IsBlock (s.blk_size r nb a) nb
  pub fresh :
      (r : Rw) (nb a : ℕ)
      → IsConfigured (limits r)
      → 8 ≤ nb
      → 8 ≤ s.blk_size (pkt_finalize true r) nb a
