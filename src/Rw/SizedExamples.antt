-- ===== src/Rw/SizedExamples.antt =====
-- Tests of the sizes of PL2 packets, and the theorem at a concrete input.
use tas_client_api.Prelude.{
  ℕ, zero, suc, ◌+◌, ◌*◌, ◌≤◌, ◌/◌, ◌≡◌, ◌⊎◌, refl, arith, Bool, true, false, Option, none, some,
  List, [], ◌∷◌, Mem, memcpy_to_words,
}
use tas_client_api.Rw.Trans.{Trans, tt_wr}
use tas_client_api.Rw.State.{
  Rw, construct, rw_start, clear, finalize_headers, init, pkt_finalize, pl2_pkt_init,
}
use tas_client_api.Rw.TestData.{blank, small_info}
use tas_client_api.Rw.Frame.{limits}
use tas_client_api.Rw.Start.{start-IsConfigured}
use tas_client_api.Rw.Request.{
  rw_set_trans, rw_get_rq, rw_add_trans, rw_add_rd, rw_add_wr, accepts, prepare_rd, prepare_wr,
  push_rw_trans, rw_get_rq_size, rw_get_rsp_size, set_trans_loop,
}
use tas_client_api.Rw.Open.{rq_limit}
use tas_client_api.Rw.Limits.{
  check_limits, check_remaining_pkt_size_sufficient, num_trans_manageable_rd,
  num_trans_manageable_wr, check_addr_map_rules_in_pkt, check_if_natural_aligned,
  get_num_bytes_addr_map_acc_mode_base_addr, get_rd_data_blk_size_in_pkt_rsp,
  get_remaining_size_in_pkt_rq, get_remaining_size_in_pkt_rsp, get_wr_data_blk_size_in_pkt_rq,
  num_trans_small,
}
use tas_client_api.Rw.Add.{
  begin_pl0, pkt_add_rd, pkt_add_wr, pkt_finalize_if_full, pkt_finalize_if_needed, push_pl0_trans,
  set_acc_mode, set_addr_map, set_addr_map_acc_mode_base_addr, set_base_addr, write_rd, write_wr,
}
use tas_client_api.Rw.Split.{
  split, blk_part, head_part, align_step, blk_step, blk_round, blk_loop, tail_part, tail_step,
  take_bytes,
}
use tas_client_api.Rw.Sized.{IsChained, rw_get_rq-rw_set_trans}
use tas_client_api.Rw.SizedData.{large_info, large, host, read_write, read_write-Fits}

rw_get_rq-rw_set_trans_example :
    (t : Bool) × (r : Rw) × (rw_set_trans host large read_write ≡ some (t, r))
    × ((t ≡ false)
        ⊎ (IsChained (rq_limit (limits (rw_start large))) (rw_get_rq r).0
            × ((rw_get_rq r).0.rq_num_bytes ≤ 4 * large.rq_wi_max)))
unfolding construct
rw_get_rq-rw_set_trans_example =
    rw_get_rq-rw_set_trans host large read_write
      (start-IsConfigured blank large_info (omega arith)).0 read_write-Fits (omega arith)
      (omega arith)

-- The lengths of `n` packets from word `w` on.
abbrev lengths : ℕ → ℕ → Mem ℕ → List ℕ
lengths zero w buf = []
lengths (suc n) w buf = buf w ∷ lengths n (w + buf w / 4) buf

abbrev request_lengths : Option (Bool × Rw) → Bool × List ℕ
request_lengths none = (false, [])
request_lengths (some (t, r)) = (t, lengths (rw_get_rq r).0.num_pl2_pkt 0 (rw_get_rq r).0.rq)

one_packet : request_lengths (rw_set_trans host large read_write) ≡ (true, 252 ∷ [])
unfolding rw_set_trans rw_get_rq rw_start construct memcpy_to_words clear finalize_headers init
    pkt_finalize pl2_pkt_init check_limits check_remaining_pkt_size_sufficient
    num_trans_manageable_rd num_trans_manageable_wr check_addr_map_rules_in_pkt
    check_if_natural_aligned get_num_bytes_addr_map_acc_mode_base_addr
    get_rd_data_blk_size_in_pkt_rsp get_remaining_size_in_pkt_rq get_remaining_size_in_pkt_rsp
    get_wr_data_blk_size_in_pkt_rq num_trans_small begin_pl0 pkt_add_rd pkt_add_wr
    pkt_finalize_if_full pkt_finalize_if_needed push_pl0_trans set_acc_mode set_addr_map
    set_addr_map_acc_mode_base_addr set_base_addr write_rd write_wr split blk_part head_part
    align_step blk_step blk_round blk_loop tail_part tail_step take_bytes rw_add_trans rw_add_rd
    rw_add_wr accepts prepare_rd prepare_wr push_rw_trans rw_get_rq_size rw_get_rsp_size
    set_trans_loop
one_packet = refl

-- With packets of at most 128 bytes, a write of 200 bytes with an address map gets an empty packet
-- and one of 132 bytes.
abbrev one_write : List Trans
one_write =
    record {
      addr = 0x7000_0000;
      num_bytes = 200;
      acc_mode = 0;
      addr_map = 1;
      type = tt_wr;
      buf = 0x100;
    }
    ∷ []

too_large :
    request_lengths (rw_set_trans host (construct blank small_info) one_write)
    ≡ (true, 16 ∷ 132 ∷ 124 ∷ [])
unfolding rw_set_trans rw_get_rq rw_start construct memcpy_to_words clear finalize_headers init
    pkt_finalize pl2_pkt_init check_limits check_remaining_pkt_size_sufficient
    num_trans_manageable_rd num_trans_manageable_wr check_addr_map_rules_in_pkt
    check_if_natural_aligned get_num_bytes_addr_map_acc_mode_base_addr
    get_rd_data_blk_size_in_pkt_rsp get_remaining_size_in_pkt_rq get_remaining_size_in_pkt_rsp
    get_wr_data_blk_size_in_pkt_rq num_trans_small begin_pl0 pkt_add_rd pkt_add_wr
    pkt_finalize_if_full pkt_finalize_if_needed push_pl0_trans set_acc_mode set_addr_map
    set_addr_map_acc_mode_base_addr set_base_addr write_rd write_wr split blk_part head_part
    align_step blk_step blk_round blk_loop tail_part tail_step take_bytes rw_add_trans rw_add_rd
    rw_add_wr accepts prepare_rd prepare_wr push_rw_trans rw_get_rq_size rw_get_rsp_size
    set_trans_loop
too_large = refl
