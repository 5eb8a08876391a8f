-- ===== src/Rw/ResponseExamples.antt =====
-- Tests of the response parser and of a session, and the theorems at concrete inputs.
use tas_client_api.Prelude.{
  ◌≤◌, ℕ, zero, suc, ◌≡◌, refl, ◌∷◌, [], inl, inr, some, arith, entries, memcpy_from_words,
}
use tas_client_api.ErrorInfo.{err_none}
use tas_client_api.Base.Ping.{client_rw, set_pkt_rsp_ping, take_ping, take_con_info}
use tas_client_api.Base.Accepted.{IsOutcome, IsAnswer, set_pkt_rsp_ping-Outcome}
use tas_client_api.Rw.Results.{rw_get_num_pl2_pkt, count_loop, rw_get_trans_rsp, collect_loop}
use tas_client_api.Rw.Counting.{rw_get_num_pl2_pkt-bounded}
use tas_client_api.Rw.State.{Rw, construct, rw_start}
use tas_client_api.Rw.Start.{IsPrepared}
use tas_client_api.Rw.Report.{pl0_cmd_is_rd, pl0_cmd_is_wr_or_fill}
use tas_client_api.Rw.Response.{
  SetRsp, rw_set_rsp, rsp_loop, step, start_step, end_step, wr_step, rd_step,
}
use tas_client_api.Rw.Parsing.{rw_set_rsp-returns}
use tas_client_api.Rw.Answers.{IsSize, answered, rw_set_rsp-Answers}
use tas_client_api.Rw.Taken.{IsReply, rw_set_rsp-takes}
use tas_client_api.Rw.Reach.{IsOutside, rw_set_rsp-IsSafe}
use tas_client_api.Rw.Session.{ping-start-IsPrepared}
use tas_client_api.Rw.TestData.{words, two_trans, waiting, reply, no_host, the, ping, fresh, blank}

abbrev outcome : SetRsp
outcome = the (rw_set_rsp 7 reply 24 waiting no_host)

sizes : (i : ℕ) → IsSize (two_trans i).num_bytes
sizes zero = inl (omega arith)
sizes (suc zero) = inl (omega arith)
sizes (suc (suc i)) = inl (omega arith)

outside : (i : ℕ) → IsOutside (two_trans i) 0x104
outside zero = inr (inr (omega arith))
outside (suc zero) = inl (omega arith)
outside (suc (suc i)) = inl (omega arith)

taken : rw_set_rsp 7 reply 24 waiting no_host ≡ some outcome
unfolding rw_set_rsp rsp_loop step start_step end_step wr_step rd_step pl0_cmd_is_rd
    pl0_cmd_is_wr_or_fill
taken = refl

taken_ret : outcome.ret ≡ err_none
unfolding rw_set_rsp rsp_loop step start_step end_step wr_step rd_step pl0_cmd_is_rd
    pl0_cmd_is_wr_or_fill
taken_ret = refl

-- The four bytes read are in the caller's memory.
taken_data : entries outcome.host 0x100 4 ≡ 0x44 ∷ 0x33 ∷ 0x22 ∷ 0x11 ∷ []
unfolding rw_set_rsp rsp_loop step start_step end_step wr_step rd_step pl0_cmd_is_rd
    pl0_cmd_is_wr_or_fill entries memcpy_from_words
taken_data = refl

rw_set_rsp-returns_example : (res : SetRsp) × (rw_set_rsp 8 reply 24 waiting no_host ≡ some res)
rw_set_rsp-returns_example =
    rw_set_rsp-returns 7 reply 24 waiting no_host (omega arith) (omega arith)

rw_set_rsp-Answers_example :
    (k : ℕ) × (outcome.rw.pl0_trans_rsp ≡ answered waiting k) × (outcome.rw.pl0_trans ≡ two_trans)
rw_set_rsp-Answers_example =
    rw_set_rsp-Answers 7 reply 24 waiting no_host outcome (omega arith) sizes taken taken_ret

rw_set_rsp-IsSafe_example : outcome.host 0x104 ≡ 0
rw_set_rsp-IsSafe_example =
    rw_set_rsp-IsSafe 7 reply 24 waiting no_host outcome 0x104 sizes outside taken

set_pkt_rsp_ping-Outcome_example :
    IsOutcome ping (IsAnswer 0xa2 client_rw ping) (set_pkt_rsp_ping 0xa2 client_rw ping fresh)
set_pkt_rsp_ping-Outcome_example = set_pkt_rsp_ping-Outcome 0xa2 client_rw ping fresh

pinged : (set_pkt_rsp_ping 0xa2 client_rw ping fresh).0 ≡ err_none
unfolding set_pkt_rsp_ping take_ping take_con_info
pinged = refl

ping-start-IsPrepared_example :
    IsPrepared
      (rw_start (construct blank (set_pkt_rsp_ping 0xa2 client_rw ping fresh).1.con_info))
      (set_pkt_rsp_ping 0xa2 client_rw ping fresh).1.con_info
ping-start-IsPrepared_example = ping-start-IsPrepared 0xa2 client_rw ping fresh blank pinged

-- Two packets were sent, and the response holds two of 12 bytes.
abbrev counting : Rw
counting = record waiting { num_pl2_pkt = 2 }

rw_get_num_pl2_pkt-bounded_example :
    (k : ℕ) × (rw_get_num_pl2_pkt 2 counting (words (12 ∷ 0 ∷ 0 ∷ 12 ∷ [])) 24 ≡ some k)
    × (k ≤ counting.num_pl2_pkt)
rw_get_num_pl2_pkt-bounded_example =
    rw_get_num_pl2_pkt-bounded 2 counting (words (12 ∷ 0 ∷ 0 ∷ 12 ∷ [])) 24 (omega arith)
      (omega arith)

counted : rw_get_num_pl2_pkt 2 counting (words (12 ∷ 0 ∷ 0 ∷ 12 ∷ [])) 24 ≡ some 2
unfolding rw_get_num_pl2_pkt count_loop
counted = refl

-- The two answers reach the caller's two transactions.
abbrev summed : ℕ × Rw
summed = rw_get_trans_rsp (record outcome.rw { rw_trans = two_trans; rw_num_trans = 2 })

summed_bytes :
    ((summed.1.rw_trans_rsp 0).num_bytes_ok ≡ 4) × ((summed.1.rw_trans_rsp 1).num_bytes_ok ≡ 2)
unfolding rw_set_rsp rsp_loop step start_step end_step wr_step rd_step pl0_cmd_is_rd
    pl0_cmd_is_wr_or_fill rw_get_trans_rsp collect_loop
summed_bytes = (refl, refl)

reply-IsReply : IsReply reply 24 waiting
unfolding pl0_cmd_is_rd pl0_cmd_is_wr_or_fill
reply-IsReply = record {
  length = (omega arith, refl, omega arith);
  fits = (omega arith, omega arith);
  size = refl;
  start = (refl, refl, refl);
  answers = (
    omega arith,
    inr (
      record {
        type = refl;
        cmd = refl;
        blk = inr (omega arith, omega arith);
        wl = refl;
        wlrd = refl;
        err = refl;
      },
      (
        omega arith,
        inl (
          record { type = inl refl; cmd = refl; wl = refl; wlwr = refl; err = refl },
          (omega arith, refl, refl, refl),
        ),
      ),
    ),
  );
}

rw_set_rsp-takes_example :
    (res : SetRsp) × (rw_set_rsp 7 reply 24 waiting no_host ≡ some res)
    × (res.ret ≡ err_none)
    × (res.rw.pl0_trans_rsp ≡ answered waiting 2)
rw_set_rsp-takes_example =
    rw_set_rsp-takes 7 reply 24 waiting no_host sizes reply-IsReply (omega arith)
