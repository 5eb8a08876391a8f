-- ===== src/Rw/Advance.antt =====
-- A round of the loop of `rw_set_rsp` for an answer to a transaction that succeeded
-- (src/tas_client/tas_pkt_handler_rw.cpp).
use tas_client_api.Prelude.{
  ℕ, ◌+◌, ◌/◌, ◌%◌, ◌^◌, ◌≤◌, ◌<◌, ◌≡◌, ◌≢◌, refl, ◌⊎◌, inl, inr, true, false, ◌&&◌, ◌||◌, Mem,
  ◌==◌, ◌!=◌, u8, u16, u32, byte0, byte1, byte2, byte3, arith,
}
use tas_client_api.Pkt.Cmd
use tas_client_api.Pkt.Err
use tas_client_api.ErrorInfo.{ErrorInfo}
use tas_client_api.Rw.Trans.{Trans, tt_rd, tt_wr, tt_fill}
use tas_client_api.Rw.Report.{pl0_cmd_is_rd, pl0_cmd_is_wr_or_fill}
use tas_client_api.Rw.Response.{Parse, go, step, wr_step, rd_step, answer, copy, wl_no_err}
use tas_client_api.Rw.Moves.{due}
use tas_client_api.Rw.Answers.{IsSize}

-- The data words of a transaction.
abbrev pub words_of : Trans → ℕ
words_of t = (t.num_bytes + 3) / 4

-- The answer `w` to a write or a fill that succeeded.
pub record IsWritten (t : Trans) (w : ℕ) : Type 0 where
  pub type : (t.type ≡ tt_wr) ⊎ (t.type ≡ tt_fill)
  pub cmd : pl0_cmd_is_wr_or_fill (byte1 w) ≡ true
  pub wl : byte0 w ≡ 0
  pub wlwr : byte2 w ≡ words_of t % 256
  pub err : byte3 w ≡ Err.pl0_no_error

-- The first word of the answer to a read that succeeded: a block of 1 KB has its own command.
pub record IsRead (t : Trans) (w : ℕ) : Type 0 where
  pub type : t.type ≡ tt_rd
  pub cmd : pl0_cmd_is_rd (byte1 w) ≡ true
  pub blk :
      ((words_of t ≡ 256) × (byte1 w ≡ Cmd.pl0_rdblk1kb))
      ⊎ ((words_of t < 256) × (byte1 w ≢ Cmd.pl0_rdblk1kb))
  pub wl : byte0 w ≡ words_of t % 256
  pub wlrd : byte2 w ≡ words_of t % 256
  pub err : byte3 w ≡ Err.pl0_no_error

wr-not-end : (c : ℕ) → pl0_cmd_is_wr_or_fill c ≡ true → (c == Cmd.pl1_pl0_end) ≡ false
unfolding pl0_cmd_is_wr_or_fill
wr-not-end c h = ground arith

rd-not-end : (c : ℕ) → pl0_cmd_is_rd c ≡ true → (c == Cmd.pl1_pl0_end) ≡ false
unfolding pl0_cmd_is_rd
rd-not-end c h = ground arith

rd-not-wr : (c : ℕ) → pl0_cmd_is_rd c ≡ true → pl0_cmd_is_wr_or_fill c ≡ false
unfolding pl0_cmd_is_rd pl0_cmd_is_wr_or_fill
rd-not-wr c h = ground arith

-- What a round for a good answer leaves alone.
pub record Kept : Type 0 where
  pub ei : ErrorInfo
  pub trans : Mem Trans
  pub num : ℕ
  pub oldest : ℕ
  pub next : ℕ

abbrev pub kept : Parse → Kept
kept s = record {
  ei = s.rw.ei;
  trans = s.rw.pl0_trans;
  num = s.rw.pl0_num_trans;
  oldest = s.rw.pl1_cnt_outstanding_oldest;
  next = s.pkt_start_next;
}

-- A round takes the answer to one transaction, `n` words long.
pub record Advances (rsp : Mem ℕ) (s : Parse) (n : ℕ) : Type 0 where
  pub to : Parse
  pub goes : step rsp s ≡ go to
  pub wi : to.wi ≡ s.wi + n
  pub i_trans : to.i_trans ≡ s.i_trans + 1
  pub same : kept to ≡ kept s

module _ (rsp : Mem ℕ) (wi_max : ℕ) (small : wi_max ≤ 2 ^ 30) where
  pub wr-Advances :
      (s : Parse)
      → s.wi < wi_max
      → s.i_trans < 2 ^ 30
      → s.pkt_start_next ≡ wi_max
      → IsSize (due s).num_bytes
      → IsWritten (due s) (rsp s.wi)
      → Advances rsp s 1
  unfolding step wr_step
  wr-Advances s lt few nx size h =
      let inside : (s.wi == s.pkt_start_next) ≡ false = ground arith in
      let no_end : (byte1 (rsp s.wi) == Cmd.pl1_pl0_end) ≡ false =
        wr-not-end (byte1 (rsp s.wi)) h.cmd in
      let t0 : (byte0 (rsp s.wi) != 0) ≡ false = ground (arith, h.wl) in
      let t1 : ((due s).type != tt_wr && (due s).type != tt_fill) ≡ false =
        ground (arith, h.type) in
      let t2 : (byte3 (rsp s.wi) != Err.pl0_no_error) ≡ false = ground (arith, h.err) in
      let t3 : (byte2 (rsp s.wi) != u8 (u32 ((due s).num_bytes + 3) / 4)) ≡ false =
        ground (arith, h.wlwr, size) in
      record {
        to = record (answer (u16 (due s).num_bytes) Err.pl0_no_error s) {
          wi = u32 (s.wi + 1);
          i_trans = u32 (s.i_trans + 1);
        };
        goes = rw (inside, no_end, h.cmd, t0, t1, t2, t3) refl;
        wi = omega arith;
        i_trans = omega arith;
        same = refl;
      }

  pub rd-Advances :
      (s : Parse)
      → s.wi < wi_max
      → s.i_trans < 2 ^ 30
      → s.pkt_start_next ≡ wi_max
      → IsSize (due s).num_bytes
      → IsRead (due s) (rsp s.wi)
      → Advances rsp s (1 + words_of (due s))
  unfolding step rd_step
  rd-Advances s lt few nx size h =
      let inside : (s.wi == s.pkt_start_next) ≡ false = ground arith in
      let no_end : (byte1 (rsp s.wi) == Cmd.pl1_pl0_end) ≡ false =
        rd-not-end (byte1 (rsp s.wi)) h.cmd in
      let no_wr : pl0_cmd_is_wr_or_fill (byte1 (rsp s.wi)) ≡ false =
        rd-not-wr (byte1 (rsp s.wi)) h.cmd in
      let t0 : (byte0 (rsp s.wi) != byte2 (rsp s.wi)) ≡ false = ground (arith, h.wl, h.wlrd) in
      let t1 : ((due s).type != tt_rd) ≡ false = ground (arith, h.type) in
      let t2 : (byte3 (rsp s.wi) != Err.pl0_no_error) ≡ false = ground (arith, h.err) in
      elim h.blk [
        | inl (full, cmd) ↦
            let t3 : (byte1 (rsp s.wi) == Cmd.pl0_rdblk1kb) ≡ true = ground (arith, cmd) in
            let t4 : (wl_no_err (due s) != 0x100
                  || byte0 (rsp s.wi) != 0
                  || byte2 (rsp s.wi) != 0
                  || byte3 (rsp s.wi) != Err.pl0_no_error)
                ≡ false =
              ground (arith, h.wl, h.wlrd, h.err, size, full) in
            record {
              to = record (copy rsp 1024 (answer 1024 Err.pl0_no_error s)) {
                wi = u32 (s.wi + 257);
                i_trans = u32 (s.i_trans + 1);
              };
              goes = rw (inside, no_end, no_wr, h.cmd, t0, t1, t3, t4) refl;
              wi = omega (arith, full);
              i_trans = omega arith;
              same = refl;
            }
        | inr (part, cmd) ↦
            let t3 : (byte1 (rsp s.wi) == Cmd.pl0_rdblk1kb) ≡ false = ground (arith, cmd) in
            let t4 : (byte2 (rsp s.wi) != u8 (u32 ((due s).num_bytes + 3) / 4)) ≡ false =
              ground (arith, h.wlrd, size) in
            record {
              to =
                  record (copy rsp (u16 (due s).num_bytes)
                    (answer (u16 (due s).num_bytes) Err.pl0_no_error s)) {
                      wi = u32 (s.wi + (1 + byte0 (rsp s.wi)));
                      i_trans = u32 (s.i_trans + 1);
                    };
              goes = rw (inside, no_end, no_wr, h.cmd, t0, t1, t3, t2, t4) refl;
              wi = omega (arith, h.wl, part);
              i_trans = omega arith;
              same = refl;
            }
      ]
