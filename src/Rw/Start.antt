-- ===== src/Rw/Start.antt =====
-- The state after the constructor and `rw_start` (src/tas_client/tas_pkt_handler_rw.cpp).
use tas_client_api.Prelude.{◌≡◌, refl, [], arith, entries}
use tas_client_api.ConInfo.{ConInfo, IsAgreed}
use tas_client_api.Rw.State.{Rw, construct, rw_start}
use tas_client_api.Rw.Frame.{limits}
use tas_client_api.Rw.Laws.{pl0_list, rw_list}
use tas_client_api.Rw.StepsIf.{IsConfigured}

-- The object has the connection information, is configured, and holds no transaction; its arrays have
-- as many entries as the server allows, which may be none.
pub record IsPrepared (r : Rw) (i : ConInfo) : Type 0 where
  pub conf : IsConfigured (limits r)
  pub agreed : r.con_info ≡ i
  pub places : r.num_trans_max ≡ i.pl0_max_num_rw
  pub no_pl0 : r.pl0_num_trans ≡ 0
  pub no_rw : r.rw_num_trans ≡ 0

-- After the constructor for a session and `rw_start` the object is configured and
-- holds no transaction, for every connection information with packet sizes from 128 to 0x10008, and
-- whatever the memory held.
pub start-IsConfigured :
    (r : Rw) (i : ConInfo)
    → IsAgreed i
    → IsConfigured (limits (rw_start (construct r i)))
      × (pl0_list (rw_start (construct r i)) ≡ [])
      × (rw_list (rw_start (construct r i)) ≡ [])
unfolding rw_start construct entries
start-IsConfigured r i v = (
  record {
    rq_pkt = v.rq_min;
    rsp_pkt = v.rsp_min;
    rq_buf = omega arith;
    rq_small = omega arith;
    rsp_buf = omega arith;
    wr_min = ground arith;
    wr_max = ground arith;
    rd_min = ground arith;
    rd_max = ground arith;
  },
  refl,
  refl,
)

pub start-IsPrepared : (r : Rw) (i : ConInfo) → IsAgreed i → IsPrepared (rw_start (construct r i)) i
unfolding rw_start construct
start-IsPrepared r i v = record {
  conf = (start-IsConfigured r i v).0;
  agreed = refl;
  places = refl;
  no_pl0 = refl;
  no_rw = refl;
}
