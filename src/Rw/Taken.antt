-- ===== src/Rw/Taken.antt =====
-- `rw_set_rsp` and the response of a server that has done what was asked
-- (src/tas_client/tas_pkt_handler_rw.cpp).
use tas_client_api.Prelude.{
  ℕ, zero, suc, ◌+◌, ◌/◌, ◌%◌, ◌^◌, ◌≤◌, ◌<◌, ◌≡◌, refl, sym, ap, ◌∙◌, subst, ◌⊎◌, inl, inr, true,
  false, ◌||◌, Mem, some, ltb, ◌==◌, ◌!=◌, u32, byte0, byte1, byte3, half1, arith, lt→ltb,
}
use tas_client_api.Pkt.Cmd
use tas_client_api.Pkt.Err
use tas_client_api.ErrorInfo.{no_error, err_none, is_err}
use tas_client_api.Rw.Trans.{Trans}
use tas_client_api.Rw.State.{Rw}
use tas_client_api.Rw.Response.{
  Parse, stop, go, step, start_step, end_step, rsp_loop, rw_set_rsp, SetRsp, begin,
}
use tas_client_api.Rw.Parsing.{stopped, went, rsp_loop-keeps}
use tas_client_api.Rw.Answers.{IsSize, answered, IsAnswering, step-IsAnswering, first}
use tas_client_api.Rw.Advance.{words_of, IsWritten, IsRead, Advances, wr-Advances, rd-Advances}

module _ (rsp : Mem ℕ) (wi_max : ℕ) where
  -- From word `wi` on stand the answers to the `n` transactions from number `i` on, each of them a
  -- success, and then the end of the packet with the count of the request.
  abbrev pub Replies : Mem Trans → ℕ → ℕ → ℕ → ℕ → Type 0
  Replies ts count i zero wi =
      (wi < wi_max)
      × (byte0 (rsp wi) ≡ 0)
      × (byte1 (rsp wi) ≡ Cmd.pl1_pl0_end)
      × (half1 (rsp wi) ≡ count)
  Replies ts count i (suc n) wi =
      (wi < wi_max)
      × ((IsWritten (ts i) (rsp wi) × Replies ts count (i + 1) n (wi + 1))
          ⊎ (IsRead (ts i) (rsp wi) × Replies ts count (i + 1) n (wi + (1 + words_of (ts i)))))

  abbrev RepliesTo : Parse → ℕ → Type 0
  RepliesTo s n = Replies s.rw.pl0_trans s.rw.pl1_cnt_outstanding_oldest s.i_trans n s.wi

  end-stops :
      (s : Parse)
      → s.pkt_start_next ≡ wi_max
      → s.i_trans ≡ s.rw.pl0_num_trans
      → RepliesTo s 0
      → step rsp s ≡ stop (record s { wi = u32 (s.wi + 1) })
  unfolding step end_step
  end-stops s nx all (lt, b0, b1, cnt) =
      let inside : (s.wi == s.pkt_start_next) ≡ false = ground arith in
      let is_end : (byte1 (rsp s.wi) == Cmd.pl1_pl0_end) ≡ true = ground arith in
      let t0 : (byte0 (rsp s.wi) != 0) ≡ false = ground arith in
      let t1 : (half1 (rsp s.wi) != s.rw.pl1_cnt_outstanding_oldest) ≡ false = ground arith in
      let t2 : (s.i_trans == s.rw.pl0_num_trans) ≡ true = ground arith in
      rw (inside, is_end, t0, t1, t2) refl

  -- The loop takes all of the answers.
  abbrev IsTaken : ℕ → Parse → Type 0
  IsTaken fuel s =
      (s' : Parse) × (rsp_loop rsp wi_max fuel s ≡ some s')
      × (s'.rw.ei ≡ no_error)
      × (s'.i_trans ≡ s.rw.pl0_num_trans)

  rsp_loop-IsTaken :
      (n fuel : ℕ) (s : Parse)
      → wi_max ≤ 2 ^ 30
      → ((i : ℕ) → IsSize (s.rw.pl0_trans i).num_bytes)
      → s.rw.ei ≡ no_error
      → s.pkt_start_next ≡ wi_max
      → s.i_trans ≤ s.wi
      → s.i_trans + n ≡ s.rw.pl0_num_trans
      → RepliesTo s n
      → n < fuel
      → IsTaken fuel s
  rsp_loop-IsTaken n zero s small sizes ok nx le all h enough = absurd (omega arith)
  rsp_loop-IsTaken zero (suc fuel) s small sizes ok nx le all h enough = (
    record s { wi = u32 (s.wi + 1) },
    stopped rsp wi_max fuel s _ (lt→ltb _ _ h.0) (end-stops s nx (omega arith) h),
    ok,
    omega arith,
  )
  rsp_loop-IsTaken (suc n) (suc fuel) s small sizes ok nx le all (lt, h) enough = elim h [
    | inl (w, rest) ↦
        continue 1 (wr-Advances rsp wi_max small s lt (omega arith) nx (sizes s.i_trans) w)
          (omega arith) rest (λ x. rsp_loop-IsTaken n fuel x small)
    | inr (w, rest) ↦
        continue (1 + words_of (s.rw.pl0_trans s.i_trans))
          (rd-Advances rsp wi_max small s lt (omega arith) nx (sizes s.i_trans) w) (omega arith)
          rest (λ x. rsp_loop-IsTaken n fuel x small)
  ]
    where
      continue :
          (k : ℕ) (a : Advances rsp s k)
          → 0 < k
          → Replies s.rw.pl0_trans s.rw.pl1_cnt_outstanding_oldest (s.i_trans + 1) n (s.wi + k)
          → ((x : Parse)
              → ((i : ℕ) → IsSize (x.rw.pl0_trans i).num_bytes)
              → x.rw.ei ≡ no_error
              → x.pkt_start_next ≡ wi_max
              → x.i_trans ≤ x.wi
              → x.i_trans + n ≡ x.rw.pl0_num_trans
              → RepliesTo x n
              → n < fuel
              → IsTaken fuel x)
          → IsTaken (suc fuel) s
      continue k a pos rest loop =
          let num : a.to.rw.pl0_num_trans ≡ s.rw.pl0_num_trans = ap (λ x. x.num) a.same in
          let (s', eq, good, i) =
            loop a.to
              (subst (λ f. (i : ℕ) → IsSize (f i).num_bytes) (sym (ap (λ x. x.trans) a.same)) sizes)
              (ap (λ x. x.ei) a.same ∙ ok) (ap (λ x. x.next) a.same ∙ nx)
              (omega (arith, a.i_trans, a.wi)) (omega (arith, a.i_trans, num))
              (subst (λ x. Replies a.to.rw.pl0_trans a.to.rw.pl1_cnt_outstanding_oldest x n a.to.wi)
                (sym a.i_trans)
                (subst
                  (λ x.
                    Replies a.to.rw.pl0_trans a.to.rw.pl1_cnt_outstanding_oldest (s.i_trans + 1) n
                      x)
                  (sym a.wi)
                  (subst (λ f. Replies f.trans f.oldest (s.i_trans + 1) n (s.wi + k)) (sym a.same)
                    rest)))
              (omega arith) in
          (s', went rsp wi_max fuel s a.to (lt→ltb _ _ lt) a.goes ∙ eq, good, i ∙ num)

-- A response of one PL2 packet to a request whose transactions all succeeded.
pub record IsReply (rsp : Mem ℕ) (num_bytes : ℕ) (r : Rw) : Type 0 where
  pub length : (8 ≤ num_bytes) × (num_bytes % 4 ≡ 0) × (num_bytes < 2 ^ 32)
  pub fits : (num_bytes ≤ r.rsp_size) × (num_bytes ≤ r.max_rsp_size)
  pub size : rsp 0 ≡ num_bytes
  pub start :
      (byte0 (rsp 1) ≡ 0) × (byte1 (rsp 1) ≡ Cmd.pl1_pl0_start) × (byte3 (rsp 1) ≡ Err.pl_no_error)
  pub answers :
      Replies rsp (num_bytes / 4) r.pl0_trans r.pl1_cnt_outstanding_oldest 0 r.pl0_num_trans 2

abbrev started : ℕ → Rw → Mem ℕ → Parse
started num_bytes r host = record (begin r host) { wi = 2; pkt_start_next = num_bytes / 4 }

start-goes :
    (rsp : Mem ℕ) (num_bytes : ℕ) (r : Rw) (host : Mem ℕ)
    → IsReply rsp num_bytes r
    → step rsp (begin r host) ≡ go (started num_bytes r host)
unfolding step start_step
start-goes rsp num_bytes r host h =
    let t0 : (rsp 0 % 4 != 0 || ltb r.max_rsp_size (rsp 0)) ≡ false =
      ground (arith, h.size, h.length, h.fits) in
    let t1 : (byte0 (rsp 1) != 0 || byte1 (rsp 1) != Cmd.pl1_pl0_start) ≡ false =
      ground (arith, h.start) in
    let t2 : (byte3 (rsp 1) == Err.pl1_dev_access) ≡ false = ground (arith, h.start.2) in
    let t3 : (byte3 (rsp 1) == Err.pl1_dev_reset) ≡ false = ground (arith, h.start.2) in
    let t4 : (byte3 (rsp 1) != Err.pl_no_error) ≡ false = ground (arith, h.start.2) in
    let next : u32 (0 + rsp 0 / 4) ≡ num_bytes / 4 = omega (arith, h.size, h.length) in
    rw (t0, t1, t2, t3, t4, next) refl

-- The response of a server to a request of one PL2 packet, whose transactions all succeeded, is
-- taken: for PL0 transactions of the sizes that the builder makes, and with fuel for the start, the
-- transactions and the end, `rw_set_rsp` returns without error, and every PL0 transaction is answered
-- with success and all of its bytes.
pub rw_set_rsp-takes :
    (fuel : ℕ) (rsp : Mem ℕ) (num_bytes : ℕ) (r : Rw) (host : Mem ℕ)
    → ((i : ℕ) → IsSize (r.pl0_trans i).num_bytes)
    → IsReply rsp num_bytes r
    → r.pl0_num_trans + 1 < fuel
    → (res : SetRsp) × (rw_set_rsp fuel rsp num_bytes r host ≡ some res)
      × (res.ret ≡ err_none)
      × (res.rw.pl0_trans_rsp ≡ answered r r.pl0_num_trans)
unfolding rw_set_rsp
rw_set_rsp-takes zero rsp num_bytes r host sizes h enough = absurd (omega arith)
rw_set_rsp-takes (suc fuel) rsp num_bytes r host sizes h enough =
    let wi_max = num_bytes / 4 in
    let test : (ltb num_bytes 8 || num_bytes % 4 != 0 || ltb r.rsp_size num_bytes) ≡ false =
      ground (arith, h.length, h.fits) in
    let (s, eq, good, all) =
      rsp_loop-IsTaken rsp wi_max r.pl0_num_trans fuel (started num_bytes r host)
        (omega (arith, h.length)) sizes refl refl (omega arith) (omega arith) h.answers
        (omega arith) in
    let run : rsp_loop rsp wi_max (suc fuel) (begin r host) ≡ some s =
      went rsp wi_max fuel (begin r host) (started num_bytes r host) (ground (arith, h.length))
        (start-goes rsp num_bytes r host h)
      ∙ eq in
    let inv =
      rsp_loop-keeps rsp wi_max (IsAnswering r sizes) (suc fuel) (begin r host) s
        (λ x st w. step-IsAnswering r sizes rsp x st (omega (arith, h.length))) (first r sizes host)
        run in
    rw (test, run)
      (
        record { ret = s.rw.ei.tas_err; rw = s.rw; host = s.host },
        refl,
        ap (λ e. e.tas_err) good,
        inv.answers (ap (λ e. is_err e.tas_err) good) ∙ ap (answered r) all,
      )
