-- ===== src/Rw/Answers.antt =====
-- What a response that is taken without error has done (`rw_set_rsp`,
-- src/tas_client/tas_pkt_handler_rw.cpp).
use tas_client_api.Prelude.{
  ℕ, ◌+◌, ◌/◌, ◌%◌, ◌≤◌, ◌<◌, ◌^◌, ◌≡◌, ◌≢◌, refl, Bool, true, false, Mem, store, some, ◌⊎◌, inl,
  inr, arith, ltb, ap, ℕ_discrete, sym, ◌∙◌, if◌then◌else◌, u16, u32, subst, ◌==◌,
}
use tas_client_api.Pkt.Err
use tas_client_api.ErrorInfo.{
  TasReturn, ErrorInfo, err_none, err_server_con, err_rw_read, err_rw_write, is_err,
}
use tas_client_api.Rw.Trans.{Trans, TransRsp}
use tas_client_api.Rw.State.{Rw}
use tas_client_api.Rw.Report.{set_rsp_err_pl0_data, pl0_data_error}
use tas_client_api.Rw.Response.{Parse, Step, rw_set_rsp, SetRsp, begin}
use tas_client_api.Rw.Moves.{
  IsWhole, Moves, due, refuses, refuses_answer, starts, ends, counts, writes, write_fails, reads,
  read_fails,
}
use tas_client_api.Rw.Parsing.{after, rsp_loop-keeps, rw_set_rsp-cases}

-- The answer to a transaction that succeeded.
abbrev pub complete : Trans → TransRsp
complete t = record { num_bytes_ok = t.num_bytes; pl_err = Err.pl0_no_error }

-- The first `k` transactions are answered, the others are as they were.
abbrev pub answered : Rw → ℕ → Mem TransRsp
answered r k i = if ltb i k then complete (r.pl0_trans i) else r.pl0_trans_rsp i

-- The sizes of a PL0 transaction: a few bytes, or whole 64 bit words up to 1 KB.
abbrev pub IsSize : ℕ → Type 0
IsSize n = (n ≤ 4) ⊎ ((n ≤ 1024) × (n % 8 ≡ 0))

-- An error is noted when there was none.
report-err :
    (ei : ErrorInfo) (pl_err a m : ℕ) (e : TasReturn)
    → is_err e ≡ true
    → is_err (set_rsp_err_pl0_data ei pl_err e a m).tas_err ≡ true
unfolding set_rsp_err_pl0_data pl0_data_error
report-err ei pl_err a m e h = ground arith

pub whole-size : (t : Trans) (n : ℕ) → IsWhole t n → IsSize t.num_bytes → n ≡ t.num_bytes
whole-size t n (inl e) (inl f) = omega arith
whole-size t n (inl e) (inr (f, g)) = omega arith
whole-size t n (inr (e, k)) (inl f) = omega arith
whole-size t n (inr (e, k)) (inr (f, g)) = omega arith

module _ (r : Rw) (sizes : (i : ℕ) → IsSize (r.pl0_trans i).num_bytes) where
  -- As long as no error is noted, the transactions up to the current one are answered.
  pub record IsAnswering (s : Parse) : Type 0 where
    pub bound : s.i_trans ≤ s.wi
    pub trans : s.rw.pl0_trans ≡ r.pl0_trans
    pub answers : is_err s.rw.ei.tas_err ≡ false → s.rw.pl0_trans_rsp ≡ answered r s.i_trans

  answered-suc :
      (m : Mem TransRsp) (k n : ℕ)
      → k < 2 ^ 30
      → m ≡ answered r k
      → n ≡ (r.pl0_trans k).num_bytes
      → store m k (record { num_bytes_ok = n; pl_err = Err.pl0_no_error })
        ≡ answered r (u32 (k + 1))
  answered-suc m k n small e f = λ p j. point j p
    where
      point :
          (j : ℕ)
          → store m k (record { num_bytes_ok = n; pl_err = Err.pl0_no_error }) j
            ≡ answered r (u32 (k + 1)) j
      point j =
          let same : m j ≡ answered r k j = ap (λ f. f j) e in
          elim (ℕ_discrete j k) [
            | yes eq ↦
                let here : (k == j) ≡ true = ground arith in
                let below : ltb j (u32 (k + 1)) ≡ true = ground arith in
                rw (here, below)
                  (ap (λ x. record { num_bytes_ok = x; pl_err = Err.pl0_no_error })
                    (f ∙ ap (λ x. (r.pl0_trans x).num_bytes) (sym eq)))
            | no ne ↦
                let other : (k == j) ≡ false = ground arith in
                let below : ltb j (u32 (k + 1)) ≡ ltb j k = ground arith in rw (other, below) same
          ]

  answered-next :
      (x : Parse) (n : ℕ)
      → x.i_trans < 2 ^ 30
      → IsAnswering x
      → is_err x.rw.ei.tas_err ≡ false
      → n ≡ (due x).num_bytes
      → store x.rw.pl0_trans_rsp x.i_trans (record { num_bytes_ok = n; pl_err = Err.pl0_no_error })
        ≡ answered r (u32 (x.i_trans + 1))
  answered-next x n small h ok e =
      answered-suc x.rw.pl0_trans_rsp x.i_trans n small (h.answers ok)
        (e ∙ ap (λ f. (f x.i_trans).num_bytes) h.trans)

  due-IsSize : (x : Parse) → IsAnswering x → IsSize (due x).num_bytes
  due-IsSize x h = subst (λ f. IsSize (f x.i_trans).num_bytes) (sym h.trans) (sizes x.i_trans)

  pub first : (host : Mem ℕ) → IsAnswering (begin r host)
  first host = record { bound = omega arith; trans = refl; answers = λ ok. λ p j. none_yet j p }
    where
      none_yet : (j : ℕ) → r.pl0_trans_rsp j ≡ answered r 0 j
      none_yet j = let none : ltb j 0 ≡ false = ground arith in rw none refl

  size-u16 : (n : ℕ) → IsSize n → u16 n ≡ n
  size-u16 n (inl e) = omega arith
  size-u16 n (inr (e, f)) = omega arith

  contra {ℓ} : {A : Type ℓ} {b : Bool} → b ≡ true → b ≡ false → A
  contra e f = cc

  pub step-IsAnswering :
      (rsp : Mem ℕ) (x : Parse) (st : Step)
      → x.wi < 2 ^ 30
      → IsAnswering x
      → Moves rsp x st
      → IsAnswering (after st)
  step-IsAnswering rsp x _ w h (refuses ei next e) = record {
    bound = h.bound;
    trans = h.trans;
    answers = λ ok. contra e ok;
  }
  step-IsAnswering rsp x _ w h (refuses_answer e) = record {
    bound = h.bound;
    trans = h.trans;
    answers = λ ok. contra refl ok;
  }
  step-IsAnswering rsp x _ w h (starts next count) = record {
    bound = omega (arith, h.bound);
    trans = h.trans;
    answers = h.answers;
  }
  step-IsAnswering rsp x _ w h (ends e) = record {
    bound = omega (arith, h.bound);
    trans = h.trans;
    answers = h.answers;
  }
  step-IsAnswering rsp x _ w h counts = record {
    bound = omega (arith, h.bound);
    trans = h.trans;
    answers = h.answers;
  }
  step-IsAnswering rsp x _ w h writes = record {
    bound = omega (arith, h.bound);
    trans = h.trans;
    answers = λ ok. answered-next x _ (omega (arith, h.bound)) h ok (size-u16 _ (due-IsSize x h));
  }
  step-IsAnswering rsp x _ w h (write_fails n e wl) = record {
    bound = omega (arith, h.bound);
    trans = h.trans;
    answers = λ ok. contra (report-err x.rw.ei e _ _ err_rw_write refl) ok;
  }
  step-IsAnswering rsp x _ w h (reads n wl ty b l) = record {
    bound = omega (arith, h.bound);
    trans = h.trans;
    answers = λ ok.
        answered-next x n (omega (arith, h.bound)) h ok (whole-size (due x) n b (due-IsSize x h));
  }
  step-IsAnswering rsp x _ w h (read_fails n e v wl ty b l) = record {
    bound = omega (arith, h.bound);
    trans = h.trans;
    answers = λ ok. contra (report-err x.rw.ei e _ _ err_rw_read refl) ok;
  }

-- When `rw_set_rsp` returns without error, for PL0 transactions of the sizes that the builder makes,
-- then a prefix of them is answered, each with success and with all of its bytes, and the marks of
-- the others and the transactions themselves are as they were.
pub rw_set_rsp-Answers :
    (fuel : ℕ) (rsp : Mem ℕ) (num_bytes : ℕ) (r : Rw) (host : Mem ℕ) (res : SetRsp)
    → num_bytes < 2 ^ 32
    → ((i : ℕ) → IsSize (r.pl0_trans i).num_bytes)
    → rw_set_rsp fuel rsp num_bytes r host ≡ some res
    → res.ret ≡ err_none
    → (k : ℕ) × (res.rw.pl0_trans_rsp ≡ answered r k) × (res.rw.pl0_trans ≡ r.pl0_trans)
rw_set_rsp-Answers fuel rsp num_bytes r host res small sizes eq ok =
    elim (rw_set_rsp-cases fuel rsp num_bytes r host res eq) [
      | inl e ↦ absurd (refused (ap (λ x. x.ret) e ∙ ok))
      | inr (s, h, e) ↦
          let inv =
            rsp_loop-keeps rsp (num_bytes / 4) (IsAnswering r sizes) fuel (begin r host) s
              (λ x st w. step-IsAnswering r sizes rsp x st (omega arith)) (first r sizes host) h in
          (
            s.i_trans,
            ap (λ x. x.rw.pl0_trans_rsp) (sym e) ∙ inv.answers (ap is_err (ap (λ x. x.ret) e ∙ ok)),
            ap (λ x. x.rw.pl0_trans) (sym e) ∙ inv.trans,
          )
    ]
  where
    refused : err_server_con ≢ err_none
    refused e = cc
