-- ===== src/Rw/SizedData.antt =====
-- Transactions for the tests of the sizes of PL2 packets.
use tas_client_api.Prelude.{ℕ, inl, inr, arith, List, [], ◌∷◌, Mem, All}
use tas_client_api.ConInfo.{ConInfo}
use tas_client_api.Rw.Trans.{Trans, tt_rd, tt_wr}
use tas_client_api.Rw.State.{Rw, construct, rw_start}
use tas_client_api.Rw.TestData.{blank, small_info}
use tas_client_api.Rw.Frame.{limits}
use tas_client_api.Rw.Open.{rq_limit}
use tas_client_api.Rw.Sized.{Fits}

abbrev pub large_info : ConInfo
large_info = record small_info { max_pl2rq_pkt_size = 2048; max_pl2rsp_pkt_size = 2048 }

abbrev pub large : Rw
large = construct blank large_info

abbrev pub host : Mem ℕ
host p = p

-- A read of 21 bytes, and a write of 200.
abbrev pub read_write : List Trans
read_write =
    record {
      addr = 0x7000_0001;
      num_bytes = 21;
      acc_mode = 0;
      addr_map = 0;
      type = tt_rd;
      buf = 0x100;
    }
    ∷ record {
      addr = 0x7000_0000;
      num_bytes = 200;
      acc_mode = 0;
      addr_map = 1;
      type = tt_wr;
      buf = 0x200;
    }
    ∷ []

pub read_write-Fits : All (Fits (rq_limit (limits (rw_start large)))) read_write
unfolding rw_start construct
read_write-Fits = ((omega arith, inl (omega arith)), ((omega arith, inr (omega arith)), tt))
