-- ===== src/Rw/Reach.antt =====
-- Which memory of the caller a response can reach (`rw_set_rsp`,
-- src/tas_client/tas_pkt_handler_rw.cpp).
use tas_client_api.Prelude.{
  ℕ, zero, suc, ◌+◌, ◌*◌, ◌/◌, ◌≤◌, ◌<◌, ◌≡◌, ◌≢◌, refl, Mem, some, ◌⊎◌, inl, inr, arith, ap, sym,
  ◌∙◌, memcpy_from_words, subst,
}
use tas_client_api.Rw.Trans.{Trans, tt_rd}
use tas_client_api.Rw.State.{Rw}
use tas_client_api.Rw.Response.{Parse, Step, rw_set_rsp, SetRsp, begin}
use tas_client_api.Rw.Moves.{
  IsWhole, Moves, due, refuses, refuses_answer, starts, ends, counts, writes, write_fails, reads,
  read_fails,
}
use tas_client_api.Rw.Parsing.{after, rsp_loop-keeps, rw_set_rsp-cases}
use tas_client_api.Rw.Answers.{IsSize, whole-size}

-- A byte of the caller's memory that no read can reach.
abbrev pub IsOutside : Trans → ℕ → Type 0
IsOutside t p = (t.type ≢ tt_rd) ⊎ (p < t.buf) ⊎ (t.buf + (t.num_bytes + 3) / 4 * 4 ≤ p)

memcpy-outside :
    (m : Mem ℕ) (i n : ℕ) (host : Mem ℕ) (dst p : ℕ)
    → (p < dst) ⊎ (dst + n ≤ p)
    → memcpy_from_words m i n host dst p ≡ host p
unfolding memcpy_from_words
memcpy-outside m i zero host dst p h = refl
memcpy-outside m i (suc n) host dst p (inl h) =
    memcpy-outside m (i + 1) n _ (dst + 1) p (inl (omega arith)) ∙ ground arith
memcpy-outside m i (suc n) host dst p (inr h) =
    memcpy-outside m (i + 1) n _ (dst + 1) p (inr (omega arith)) ∙ ground arith

module _ (r : Rw) (host : Mem ℕ) (p : ℕ) (sizes : (i : ℕ) → IsSize (r.pl0_trans i).num_bytes)
    (outside : (i : ℕ) → IsOutside (r.pl0_trans i) p) where
  abbrev IsSpared : Parse → Type 0
  IsSpared s = (s.rw.pl0_trans ≡ r.pl0_trans) × (s.host p ≡ host p)

  copy-IsSpared :
      (rsp : Mem ℕ) (x : Parse) (n i : ℕ)
      → IsSpared x
      → (due x).type ≡ tt_rd
      → n ≤ ((due x).num_bytes + 3) / 4 * 4
      → memcpy_from_words rsp i n x.host (due x).buf p ≡ host p
  copy-IsSpared rsp x n i h ty le =
      memcpy-outside rsp i n x.host (due x).buf p (away (due x) ty le due-outside) ∙ h.1
    where
      due-outside : IsOutside (due x) p
      due-outside = subst (λ f. IsOutside (f x.i_trans) p) (sym h.0) (outside x.i_trans)

      away :
          (t : Trans)
          → t.type ≡ tt_rd
          → n ≤ (t.num_bytes + 3) / 4 * 4
          → IsOutside t p
          → (p < t.buf) ⊎ (t.buf + n ≤ p)
      away t ty le (inl ne) = absurd (ne ty)
      away t ty le (inr (inl lt)) = inl lt
      away t ty le (inr (inr ge)) = inr (omega arith)

  whole-fits :
      (x : Parse) (n : ℕ) → IsSpared x → IsWhole (due x) n → n ≤ ((due x).num_bytes + 3) / 4 * 4
  whole-fits x n h w =
      let size : IsSize (due x).num_bytes =
        subst (λ f. IsSize (f x.i_trans).num_bytes) (sym h.0) (sizes x.i_trans) in
      omega (arith, whole-size (due x) n w size)

  step-IsSpared :
      (rsp : Mem ℕ) (x : Parse) (st : Step) → IsSpared x → Moves rsp x st → IsSpared (after st)
  step-IsSpared rsp x _ h (refuses ei next e) = h
  step-IsSpared rsp x _ h (refuses_answer e) = h
  step-IsSpared rsp x _ h (starts next count) = h
  step-IsSpared rsp x _ h (ends e) = h
  step-IsSpared rsp x _ h counts = h
  step-IsSpared rsp x _ h writes = h
  step-IsSpared rsp x _ h (write_fails n e wl) = h
  step-IsSpared rsp x _ h (reads n wl ty b l) =
      (h.0, copy-IsSpared rsp x n _ h ty (whole-fits x n h b))
  step-IsSpared rsp x _ h (read_fails n e v wl ty b l) =
      (h.0, copy-IsSpared rsp x n _ h ty (omega arith))

-- Whatever a response holds, for PL0 transactions of the sizes that the builder makes, `rw_set_rsp`
-- writes no byte of the caller's memory but those of the
-- buffers of PL0 reads, rounded up to whole words. The condition speaks of every entry of the list of
-- PL0 transactions, used or not, since the parser does not compare its index with their number.
pub rw_set_rsp-IsSafe :
    (fuel : ℕ) (rsp : Mem ℕ) (num_bytes : ℕ) (r : Rw) (host : Mem ℕ) (res : SetRsp) (p : ℕ)
    → ((i : ℕ) → IsSize (r.pl0_trans i).num_bytes)
    → ((i : ℕ) → IsOutside (r.pl0_trans i) p)
    → rw_set_rsp fuel rsp num_bytes r host ≡ some res
    → res.host p ≡ host p
rw_set_rsp-IsSafe fuel rsp num_bytes r host res p sizes outside eq =
    elim (rw_set_rsp-cases fuel rsp num_bytes r host res eq) [
      | inl e ↦ ap (λ x. x.host p) (sym e)
      | inr (s, h, e) ↦
          let inv =
            rsp_loop-keeps rsp (num_bytes / 4) (IsSpared r host p sizes outside) fuel (begin r host)
              s (λ x st w. step-IsSpared r host p sizes outside rsp x st) (refl, refl) h in
          ap (λ x. x.host p) (sym e) ∙ inv.1
    ]
