-- ===== src/Rw/Steps.antt =====
-- The packets of `rw_add_rd` and `rw_add_wr` meet what the splitting needs of them.
use tas_client_api.Prelude.{ℕ, ◌≤◌, true, Mem, arith}
use tas_client_api.Rw.Trans.{tt_rd, tt_wr}
use tas_client_api.Rw.State.{Rw, pkt_finalize}
use tas_client_api.Rw.Limits.{
  get_wr_data_blk_size_in_pkt_rq, get_rd_data_blk_size_in_pkt_rsp, get_remaining_size_in_pkt_rq,
  get_remaining_size_in_pkt_rsp,
}
use tas_client_api.Rw.Request.{rd_steps, wr_steps}
use tas_client_api.Rw.Frame.{limits}
use tas_client_api.Rw.Laws.{pkt_add_rd-Adds, pkt_add_wr-Adds, pkt_add_rd-zero, pkt_add_wr-zero}
use tas_client_api.Rw.StepsIf.{IsConfigured, IsBlock, StepsLaws}

rd-IsBlock :
    (r : Rw) (nb : ℕ) → IsConfigured (limits r) → IsBlock (get_rd_data_blk_size_in_pkt_rsp r nb) nb
unfolding get_rd_data_blk_size_in_pkt_rsp
rd-IsBlock r nb v = ground arith

wr-IsBlock :
    (r : Rw) (nb a : ℕ)
    → IsConfigured (limits r)
    → IsBlock (get_wr_data_blk_size_in_pkt_rq r nb a) nb
unfolding get_wr_data_blk_size_in_pkt_rq
wr-IsBlock r nb a v = ground arith

-- A new PL2 packet has room for its limit less the headers, and for 116 bytes at least.
fresh_rsp :
    (r : Rw) → IsConfigured (limits r) → 116 ≤ get_remaining_size_in_pkt_rsp (pkt_finalize true r)
unfolding get_remaining_size_in_pkt_rsp pkt_finalize
fresh_rsp r v = ground arith

fresh_rq :
    (r : Rw) → IsConfigured (limits r) → 116 ≤ get_remaining_size_in_pkt_rq (pkt_finalize true r)
unfolding get_remaining_size_in_pkt_rq pkt_finalize
fresh_rq r v = ground arith

rd_fresh :
    (r : Rw) (nb : ℕ)
    → IsConfigured (limits r)
    → 8 ≤ nb
    → 8 ≤ get_rd_data_blk_size_in_pkt_rsp (pkt_finalize true r) nb
unfolding get_rd_data_blk_size_in_pkt_rsp pkt_finalize
rd_fresh r nb v le = ground (arith, fresh_rsp r v)

wr_fresh :
    (r : Rw) (nb a : ℕ)
    → IsConfigured (limits r)
    → 8 ≤ nb
    → 8 ≤ get_wr_data_blk_size_in_pkt_rq (pkt_finalize true r) nb a
unfolding get_wr_data_blk_size_in_pkt_rq pkt_finalize
wr_fresh r nb a v le = ground (arith, fresh_rq r v)

pub rd_steps-StepsLaws : (am m : ℕ) → StepsLaws (rd_steps am m) am m tt_rd
rd_steps-StepsLaws am m = record {
  adds = λ r a n d. pkt_add_rd-Adds r a n d am m;
  adds_nothing = λ r a d. pkt_add_rd-zero r a d am m;
  block = λ r nb a. rd-IsBlock r nb;
  fresh = λ r nb a. rd_fresh r nb;
}

pub wr_steps-StepsLaws : (host : Mem ℕ) (am m : ℕ) → StepsLaws (wr_steps host am m) am m tt_wr
wr_steps-StepsLaws host am m = record {
  adds = λ r a n d. pkt_add_wr-Adds host r a n d am m;
  adds_nothing = λ r a d. pkt_add_wr-zero host r a d am m;
  block = wr-IsBlock;
  fresh = wr_fresh;
}
