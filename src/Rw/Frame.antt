-- ===== src/Rw/Frame.antt =====
-- What adding packets leaves alone in CTasPktHandlerRw: the limits, the notes of the caller's
-- transactions, and, but for `push_pl0_trans`, the PL0 transactions.
use tas_client_api.Prelude.{ℕ, ◌≡◌, refl, ◌∙◌, Bool, true, false, Mem, if◌then◌else◌, arith}
use tas_client_api.ConInfo.{ConInfo}
use tas_client_api.Rw.Trans.{Trans}
use tas_client_api.Rw.State.{Rw, pkt_finalize}
use tas_client_api.Rw.Add.{
  set_addr_map, set_acc_mode, set_base_addr, set_addr_map_acc_mode_base_addr, pkt_finalize_if_full,
  pkt_finalize_if_needed, begin_pl0,
}

-- The limits, and the caller's transactions.
pub record Limits : Type 0 where
  pub con_info : ConInfo
  pub max_rsp_size : ℕ
  pub rq_wi_max : ℕ
  pub max_wr_data_blk_size_in_pkt_rq : ℕ
  pub max_rd_data_blk_size_in_pkt_rsp : ℕ
  pub num_trans_max : ℕ
  pub rw_trans : Mem Trans
  pub rw_num_trans : ℕ

abbrev pub limits : Rw → Limits
limits r = record {
  con_info = r.con_info;
  max_rsp_size = r.max_rsp_size;
  rq_wi_max = r.rq_wi_max;
  max_wr_data_blk_size_in_pkt_rq = r.max_wr_data_blk_size_in_pkt_rq;
  max_rd_data_blk_size_in_pkt_rsp = r.max_rd_data_blk_size_in_pkt_rsp;
  num_trans_max = r.num_trans_max;
  rw_trans = r.rw_trans;
  rw_num_trans = r.rw_num_trans;
}

-- The limits, and the PL0 transactions so far.
pub record Frame : Type 0 where
  pub limit : Limits
  pub trans : Mem Trans
  pub num : ℕ

abbrev pub frame : Rw → Frame
frame r = record { limit = limits r; trans = r.pl0_trans; num = r.pl0_num_trans }

abbrev pub Keeps : Rw → Rw → Type 0
Keeps r r' = frame r' ≡ frame r

pub Keeps-if : (b : Bool) (x y r : Rw) → Keeps r x → Keeps r y → Keeps r (if b then x else y)
Keeps-if true x y r h k = h
Keeps-if false x y r h k = k

pub pkt_finalize-Keeps : (b : Bool) (r : Rw) → Keeps r (pkt_finalize b r)
unfolding pkt_finalize
pkt_finalize-Keeps true r = refl
pkt_finalize-Keeps false r = refl

set_addr_map-Keeps : (r : Rw) (m : ℕ) → Keeps r (set_addr_map r m)
unfolding set_addr_map
set_addr_map-Keeps r m = Keeps-if _ _ _ r refl refl

set_acc_mode-Keeps : (r : Rw) (m : ℕ) → Keeps r (set_acc_mode r m)
unfolding set_acc_mode
set_acc_mode-Keeps r m = Keeps-if _ _ _ r refl refl

set_base_addr-Keeps : (r : Rw) (a : ℕ) → Keeps r (set_base_addr r a)
unfolding set_base_addr
set_base_addr-Keeps r a = ground arith

select-Keeps : (r : Rw) (m am a : ℕ) → Keeps r (set_addr_map_acc_mode_base_addr r m am a)
unfolding set_addr_map_acc_mode_base_addr
select-Keeps r m am a = set_base_addr-Keeps _ a ∙ set_acc_mode-Keeps _ am ∙ set_addr_map-Keeps _ m

pkt_finalize_if_full-Keeps : (r : Rw) → Keeps r (pkt_finalize_if_full r)
unfolding pkt_finalize_if_full
pkt_finalize_if_full-Keeps r = Keeps-if _ _ _ r (pkt_finalize-Keeps true r) refl

pkt_finalize_if_needed-Keeps : (r : Rw) (n m : ℕ) → Keeps r (pkt_finalize_if_needed r n m)
unfolding pkt_finalize_if_needed
pkt_finalize_if_needed-Keeps r n m = Keeps-if _ _ _ r refl (pkt_finalize-Keeps true r)

pub begin_pl0-Keeps : (r : Rw) (a am m rq rsp : ℕ) → Keeps r (begin_pl0 r a am m rq rsp)
unfolding begin_pl0
begin_pl0-Keeps r a am m rq rsp =
    select-Keeps _ m am a ∙ pkt_finalize_if_needed-Keeps _ _ rsp ∙ pkt_finalize_if_full-Keeps r
