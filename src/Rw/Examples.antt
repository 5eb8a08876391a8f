-- ===== src/Rw/Examples.antt =====
-- Tests of the request builder, and the theorems at concrete inputs.
use tas_client_api.Prelude.{
  ◌+◌, ◌-◌, ◌^◌, inl, inr, ◌≡◌, refl, [], ◌∷◌, some, true, false, arith, entries, List,
}
use tas_client_api.Rw.Trans.{Trans, tt_rd}
use tas_client_api.Rw.State.{
  Rw, construct, rw_start, init, clear, pl2_pkt_init, finalize_headers, pkt_finalize,
}
use tas_client_api.Rw.Limits.{
  check_limits, get_rd_data_blk_size_in_pkt_rsp, get_remaining_size_in_pkt_rq,
  get_remaining_size_in_pkt_rsp, check_remaining_pkt_size_sufficient, num_trans_manageable_rd,
  num_trans_small, check_if_natural_aligned, check_addr_map_rules_in_pkt,
  get_num_bytes_addr_map_acc_mode_base_addr,
}
use tas_client_api.Rw.Split.{
  split, blk_part, head_part, tail_part, align_step, tail_step, take_bytes, blk_loop, blk_step,
  blk_round,
}
use tas_client_api.Rw.Add.{
  pkt_add_rd, begin_pl0, pkt_finalize_if_full, pkt_finalize_if_needed, push_pl0_trans, set_addr_map,
  set_acc_mode, set_base_addr, set_addr_map_acc_mode_base_addr, write_rd,
}
use tas_client_api.Rw.Request.{
  rw_set_trans, set_trans_loop, rw_add_trans, accepts, rw_add_rd, prepare_rd, push_rw_trans,
}
use tas_client_api.Rw.Laws.{pl0_list, trans}
use tas_client_api.Rw.TestData.{blank, small_info, session, result, no_host}
use tas_client_api.Rw.AllOrNothing.{IsEmpty, rw_set_trans-IsEmpty, rw_add_trans-IsClean}
use tas_client_api.Rw.Start.{start-IsConfigured}
use tas_client_api.Rw.Access.{HasRoom, Taken, rw_add_access, rw_add_access-Taken}
use tas_client_api.Rw.Packets.{cost, rw_start-IsOpen}
use tas_client_api.Rw.Add.{pkt_add_wr, pkt_add_fill}
use tas_client_api.Rw.Decoded.{rd_words, wr_words, IsRead, IsWrite, IsFill}
use tas_client_api.Rw.Written.{Ends, pkt_add-IsWritten}

-- A read of 21 bytes in a session that has just begun.
session-HasRoom : HasRoom session 0x7000_0001 21 0x100
unfolding rw_start construct
session-HasRoom = record {
  a_fits = omega arith;
  d_fits = omega arith;
  allowed = omega arith;
  places = omega arith;
  pl0_fits = omega arith;
  rw_fits = omega arith;
  words = omega arith;
  is_open =
      rw_start-IsOpen (2 ^ 29 - 16368 + cost 21) (construct blank small_info)
        (start-IsConfigured blank small_info (omega arith)).0 (omega arith);
}

session-accepts : accepts session 21 21 0 0 ≡ true
unfolding accepts check_limits rw_start construct init clear pl2_pkt_init
session-accepts = refl

rw_add_access-Taken_example :
    (r : Rw) × (rw_add_access false no_host 23 session 0x7000_0001 21 0x100 0 0 ≡ some (true, r))
    × Taken session r tt_rd 0x7000_0001 21 0x100 0 0
rw_add_access-Taken_example =
    rw_add_access-Taken false no_host 23 session 0x7000_0001 21 0x100 0 0 session-HasRoom (inl refl)
      session-accepts (omega arith)

pkt_add-IsWritten_example :
    Ends
      (pkt_add_rd session 0x7000_0002 2 0x100 0 0)
      (rd_words 2)
      (λ buf. λ w. IsRead buf w 0x7000_0002 2)
    × Ends
        (pkt_add_wr no_host session 0x7000_0002 2 0x100 0 0)
        (wr_words 2)
        (λ buf. λ w. IsWrite no_host buf w 0x7000_0002 2 0x100 1)
    × Ends
        (pkt_add_fill session 0x7000_0002 16 0xff 0 0)
        4
        (λ buf. λ w. IsFill buf w 0x7000_0002 16 0xff)
unfolding rw_start construct
pkt_add-IsWritten_example =
    pkt_add-IsWritten no_host session 0x7000_0002 2 0x100 16 0xff 0 0 1 (inr (inl refl))
      (omega arith, omega arith, refl) (omega arith) (omega arith) (omega arith) (omega arith)
      (omega arith)

-- 21 bytes from an odd address: 1, 2, 4, 8, 4 and 2 bytes.
rd_21 :
    pl0_list (result (rw_add_rd 23 session 0x7000_0001 21 0x100 0 0))
    ≡ trans 0x7000_0001 1 0 0 tt_rd 0x100
      ∷ trans 0x7000_0002 2 0 0 tt_rd 0x101
      ∷ trans 0x7000_0004 4 0 0 tt_rd 0x103
      ∷ trans 0x7000_0008 8 0 0 tt_rd 0x107
      ∷ trans 0x7000_0010 4 0 0 tt_rd 0x10f
      ∷ trans 0x7000_0014 2 0 0 tt_rd 0x113
      ∷ []
unfolding rw_start construct rw_add_rd accepts entries check_limits split blk_part head_part
    tail_part align_step tail_step take_bytes blk_loop blk_step blk_round
    get_rd_data_blk_size_in_pkt_rsp get_remaining_size_in_pkt_rq get_remaining_size_in_pkt_rsp
    pkt_add_rd check_remaining_pkt_size_sufficient prepare_rd num_trans_manageable_rd
    num_trans_small check_if_natural_aligned check_addr_map_rules_in_pkt
    get_num_bytes_addr_map_acc_mode_base_addr push_rw_trans begin_pl0 pkt_finalize_if_full
    pkt_finalize_if_needed push_pl0_trans set_addr_map set_acc_mode set_base_addr
    set_addr_map_acc_mode_base_addr write_rd pkt_finalize finalize_headers pl2_pkt_init clear init
rd_21 = refl

-- A read that is added, then one of no bytes that is refused.
abbrev good_then_bad : List Trans
good_then_bad = trans 0x7000_0000 4 0 0 tt_rd 0x100 ∷ trans 0x7000_0000 0 0 0 tt_rd 0x100 ∷ []

refused_set :
    rw_set_trans no_host session good_then_bad
    ≡ some (false, result (rw_set_trans no_host session good_then_bad))
unfolding rw_set_trans set_trans_loop rw_add_trans rw_start construct rw_add_rd accepts entries
    check_limits split blk_part head_part tail_part align_step tail_step take_bytes blk_loop
    blk_step blk_round get_rd_data_blk_size_in_pkt_rsp get_remaining_size_in_pkt_rq
    get_remaining_size_in_pkt_rsp pkt_add_rd check_remaining_pkt_size_sufficient prepare_rd
    num_trans_manageable_rd num_trans_small check_if_natural_aligned check_addr_map_rules_in_pkt
    get_num_bytes_addr_map_acc_mode_base_addr push_rw_trans begin_pl0 pkt_finalize_if_full
    pkt_finalize_if_needed push_pl0_trans set_addr_map set_acc_mode set_base_addr
    set_addr_map_acc_mode_base_addr write_rd pkt_finalize finalize_headers pl2_pkt_init clear init
refused_set = refl

rw_set_trans-IsEmpty_example : IsEmpty (result (rw_set_trans no_host session good_then_bad))
rw_set_trans-IsEmpty_example = rw_set_trans-IsEmpty no_host session good_then_bad _ refused_set

abbrev refused_read : Trans
refused_read = trans 0x7000_0000 0 0 0 tt_rd 0x100

refused_trans :
    rw_add_trans no_host session refused_read
    ≡ some (false, result (rw_add_trans no_host session refused_read))
unfolding rw_add_trans rw_add_rd accepts check_limits
refused_trans = refl

rw_add_trans-IsClean_example : result (rw_add_trans no_host session refused_read) ≡ session
rw_add_trans-IsClean_example = rw_add_trans-IsClean no_host session refused_read _ refused_trans
