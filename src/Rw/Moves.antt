-- ===== src/Rw/Moves.antt =====
-- One round of the loop of `rw_set_rsp` (src/tas_client/tas_pkt_handler_rw.cpp) as a step relation:
-- what it can do to the state, branch by branch.
use tas_client_api.Prelude.{
  if-lem, ℕ, ◌+◌, ◌*◌, ◌/◌, ◌%◌, ◌≤◌, ◌<◌, ◌≡◌, refl, true, Mem, u16, u32, if◌then◌else◌, ◌⊎◌, inl,
  inr, arith, ◌==◌, ◌!=◌, byte0, byte2, byte3, half1, ltb, leb, ◌&&◌, ◌||◌, u8, byte1,
}
use tas_client_api.Pkt.Err
use tas_client_api.Pkt.Cmd
use tas_client_api.ErrorInfo.{err_rw_read, err_rw_write, is_err, ErrorInfo}
use tas_client_api.Base.Errors.{err_connection_protocol, err_device_access_failed}
use tas_client_api.Rw.Trans.{Trans, tt_rd, tt_wr, tt_fill}
use tas_client_api.Rw.Report.{err_pl1_cnt, pl0_cmd_is_rd, pl0_cmd_is_wr_or_fill}
use tas_client_api.Rw.Response.{
  Parse, Step, stop, go, fail, answer, mark, report, next_trans, copy, wl_no_err, start_step,
  end_step, wr_step, rd_step, step,
}

-- The PL0 transaction whose answer is due.
abbrev pub due : Parse → Trans
due s = s.rw.pl0_trans s.i_trans

-- What a successful read copies: the bytes of the transaction, or the 1 KB of a full block.
abbrev pub IsWhole : Trans → ℕ → Type 0
IsWhole t n = (n ≡ u16 t.num_bytes) ⊎ ((n ≡ 1024) × (wl_no_err t ≡ 256))

pub data Moves (rsp : Mem ℕ) (s : Parse) : Step → Type 0 where
  refuses :
      (ei : ErrorInfo) (next : ℕ)
      → is_err ei.tas_err ≡ true
      → Moves rsp s (fail ei (record s { pkt_start_next = next }))
  refuses_answer : (pl_err : ℕ) → Moves rsp s (fail err_connection_protocol (mark pl_err s))
  starts :
      (next count : ℕ)
      → Moves rsp s (
          go (record s {
            pkt_start_next = next;
            wi = u32 (s.wi + 2);
            rw = record s.rw { device_reset_count = count };
          }))
  ends : s.i_trans ≡ s.rw.pl0_num_trans → Moves rsp s (stop (record s { wi = u32 (s.wi + 1) }))
  counts : Moves rsp s (
      go (record s {
        wi = u32 (s.wi + 1);
        rw = record s.rw { pl1_cnt_outstanding_oldest = u16 (s.rw.pl1_cnt_outstanding_oldest + 1) };
      }))
  writes : Moves rsp s (next_trans 1 (answer (u16 (due s).num_bytes) Err.pl0_no_error s))
  write_fails :
      (n pl_err wl : ℕ)
      → Moves rsp s (next_trans 1 (report pl_err err_rw_write wl (answer n pl_err s)))
  reads :
      (n wl : ℕ)
      → (due s).type ≡ tt_rd
      → IsWhole (due s) n
      → wl < 257
      → Moves rsp s (next_trans (1 + wl) (copy rsp n (answer n Err.pl0_no_error s)))
  read_fails :
      (n pl_err wlrd wl : ℕ)
      → (due s).type ≡ tt_rd
      → n ≤ wl_no_err (due s) * 4
      → wl < 257
      → Moves rsp s
          (next_trans (1 + wl) (copy rsp n (report pl_err err_rw_read wlrd (answer n pl_err s))))

module _ (rsp : Mem ℕ) (s : Parse) where
  refused : Moves rsp s (fail err_connection_protocol s)
  refused = refuses err_connection_protocol s.pkt_start_next refl

  abbrev header : ℕ
  header = rsp (u32 (s.wi + 1))

  start_step-Moves : Moves rsp s (start_step rsp s)
  unfolding start_step
  start_step-Moves =
      if-lem (Moves rsp s) (rsp s.wi % 4 != 0 || ltb s.rw.max_rsp_size (rsp s.wi)) (λ h. refused)
        (λ h.
          if-lem (Moves rsp s) (byte0 header != 0 || byte1 header != Cmd.pl1_pl0_start)
            (λ h. refuses err_connection_protocol _ refl)
            (λ h.
              if-lem (Moves rsp s) (byte3 header == Err.pl1_dev_access)
                (λ h. refuses err_device_access_failed _ refl)
                (λ h.
                  if-lem (Moves rsp s) (byte3 header == Err.pl1_dev_reset) (λ h. starts _ _)
                    (λ h.
                      if-lem (Moves rsp s) (byte3 header != Err.pl_no_error)
                        (λ h. refuses err_connection_protocol _ refl)
                        (λ h. starts _ s.rw.device_reset_count)))))

  end_step-Moves : Moves rsp s (end_step rsp s)
  unfolding end_step
  end_step-Moves =
      if-lem (Moves rsp s) (byte0 (rsp s.wi) != 0) (λ h. refused)
        (λ h.
          if-lem (Moves rsp s) (half1 (rsp s.wi) != s.rw.pl1_cnt_outstanding_oldest)
            (λ h. refuses err_pl1_cnt s.pkt_start_next refl)
            (λ h.
              if-lem (Moves rsp s) (s.i_trans == s.rw.pl0_num_trans) (λ h. ends (ground arith))
                (λ h. counts)))

  wr_step-Moves : (w : ℕ) → Moves rsp s (wr_step w s)
  unfolding wr_step
  wr_step-Moves w =
      let blk = byte1 w == Cmd.pl0_wrblk in
      if-lem (Moves rsp s) (byte0 w != 0) (λ h. refused)
        (λ h.
          if-lem (Moves rsp s) ((due s).type != tt_wr && (due s).type != tt_fill) (λ h. refused)
            (λ h.
              if-lem (Moves rsp s) (byte3 w != Err.pl0_no_error)
                (λ h.
                  if-lem (Moves rsp s)
                    (if blk then leb (wl_no_err (due s)) (byte2 w) else byte2 w != 0)
                    (λ h. refuses_answer _)
                    (λ h. write_fails (if blk then byte2 w * 4 else 0) (byte3 w) (byte2 w)))
                (λ h.
                  if-lem (Moves rsp s) (byte2 w != u8 (u32 ((due s).num_bytes + 3) / 4))
                    (λ h. refused) (λ h. writes))))

  rd_step-Moves : (w : ℕ) → Moves rsp s (rd_step rsp w s)
  unfolding rd_step
  rd_step-Moves w =
      let blk = byte1 w == Cmd.pl0_rdblk in
      let t : Trans = due s in
      if-lem (Moves rsp s) (byte0 w != byte2 w) (λ h. refused)
        (λ h.
          if-lem (Moves rsp s) (t.type != tt_rd) (λ h. refused)
            (λ ty.
              if-lem (Moves rsp s) (byte1 w == Cmd.pl0_rdblk1kb)
                (λ h.
                  if-lem (Moves rsp s)
                    (wl_no_err t != 0x100
                      || byte0 w != 0
                      || byte2 w != 0
                      || byte3 w != Err.pl0_no_error)
                    (λ h. refused)
                    (λ h. reads 1024 256 (ground arith) (inr (refl, ground arith)) (omega arith)))
                (λ h.
                  if-lem (Moves rsp s) (byte3 w != Err.pl0_no_error)
                    (λ h.
                      if-lem (Moves rsp s)
                        (if blk then ltb (wl_no_err t) (byte2 w) else byte2 w != 0) (λ h. refused)
                        (λ h.
                          read_fails (if blk then byte2 w * 4 else 0) (byte3 w) (byte2 w) (byte0 w)
                            (ground arith) (ground arith) (omega arith)))
                    (λ h.
                      if-lem (Moves rsp s) (byte2 w != u8 (u32 (t.num_bytes + 3) / 4))
                        (λ h. refused)
                        (λ h.
                          reads (u16 t.num_bytes) (byte0 w) (ground arith) (inl refl)
                            (omega arith))))))

  -- Every round is one of these steps.
  pub step-Moves : Moves rsp s (step rsp s)
  unfolding step
  step-Moves =
      if-lem (Moves rsp s) (s.wi == s.pkt_start_next) (λ h. start_step-Moves)
        (λ h.
          if-lem (Moves rsp s) (byte1 (rsp s.wi) == Cmd.pl1_pl0_end) (λ h. end_step-Moves)
            (λ h.
              if-lem (Moves rsp s) (pl0_cmd_is_wr_or_fill (byte1 (rsp s.wi)))
                (λ h. wr_step-Moves (rsp s.wi))
                (λ h.
                  if-lem (Moves rsp s) (pl0_cmd_is_rd (byte1 (rsp s.wi)))
                    (λ h. rd_step-Moves (rsp s.wi)) (λ h. refused))))
