-- ===== src/Rw/Sized.antt =====
-- The request that `rw_set_trans` and `rw_get_rq` make (src/tas_client/tas_pkt_handler_rw.cpp).
use tas_client_api.Prelude.{
  ℕ, ◌+◌, ◌-◌, ◌*◌, ◌/◌, ◌%◌, ◌^◌, ◌≤◌, ◌<◌, ◌≡◌, ◌≢◌, ◌⊎◌, refl, sym, subst, true, false, Bool,
  arith, inl, inr, if-lem, ◌==◌, Option, some, List, [], ◌∷◌, ◌++◌, length, length-append, All, Mem,
}
use tas_client_api.Rw.Trans.{Trans, tt_rd, tt_wr, tt_fill}
use tas_client_api.Rw.State.{Rw, pkt_finalize, finalize_headers, rw_start}
use tas_client_api.Rw.Request.{
  rw_add_trans, resume_trans, set_trans_loop, rw_set_trans, rw_get_rq, Request,
}
use tas_client_api.Rw.Frame.{limits}
use tas_client_api.Rw.StepsIf.{IsConfigured}
use tas_client_api.Rw.Chain.{IsSized, IsChain}
use tas_client_api.Rw.Open.{IsOpen, rq_limit, open_size, finalize_headers-IsChain, closed-IsSized}
use tas_client_api.Rw.Opening.{IsOpen-weaken}
use tas_client_api.Rw.Packets.{
  StaysOpen, cost, refused-StaysOpen, rw_start-IsOpen, rw_add_rd-StaysOpen, rw_add_wr-StaysOpen,
}

-- No fill; and a write only where the packets have room for the largest block with all headers.
abbrev pub Fits : ℕ → Trans → Type 0
Fits max t = (t.type ≢ tt_fill) × ((t.type ≢ tt_wr) ⊎ (1060 ≤ max))

rw_add_trans-StaysOpen :
    (host : Mem ℕ) (max b : ℕ) (r : Rw) (t : Trans)
    → Fits max t
    → IsOpen max (b + cost t.num_bytes) r
    → StaysOpen max b (rw_add_trans host r t)
unfolding rw_add_trans
rw_add_trans-StaysOpen host max b r t (no_fill, room) o =
    if-lem (StaysOpen max b) (t.type == tt_rd)
      (λ h.
        rw_add_rd-StaysOpen max b (t.num_bytes + 2) r t.addr t.num_bytes t.buf t.acc_mode t.addr_map
          o (omega arith))
      (λ h.
        if-lem (StaysOpen max b) (t.type == tt_wr)
          (λ h.
            rw_add_wr-StaysOpen host max b (t.num_bytes + 2) r t.addr t.num_bytes t.buf t.acc_mode
              t.addr_map (ground arith) o (omega arith))
          (λ h.
            if-lem (StaysOpen max b) (t.type == tt_fill) (λ h. absurd (ground arith))
              (λ h. refused-StaysOpen max b t.num_bytes r o)))

-- The words that transactions may cost.
abbrev pub total_cost : List Trans → ℕ
total_cost [] = 0
total_cost (t ∷ ts) = total_cost ts + cost t.num_bytes

-- A call returns, and on success it leaves an open packet.
abbrev Sets : ℕ → ℕ → Option (Bool × Rw) → Type 0
Sets max b o = (t : Bool) × (r : Rw) × (o ≡ some (t, r)) × ((t ≡ false) ⊎ IsOpen max b r)

resume_trans-Sets :
    (max b c : ℕ) (rest : Rw → Option (Bool × Rw)) (o : Option (Bool × Rw))
    → StaysOpen max (b + c) o
    → ((r : Rw) → IsOpen max (b + c) r → Sets max b (rest r))
    → Sets max b (resume_trans rest o)
resume_trans-Sets max b c rest o (true, r, e, open_r) next =
    subst (λ x. Sets max b (resume_trans rest x)) (sym e) (next r open_r)
resume_trans-Sets max b c rest o (false, r, e, open_r) next =
    subst (λ x. Sets max b (resume_trans rest x)) (sym e) (false, rw_start r, refl, inl refl)

set_trans_loop-Sets :
    (host : Mem ℕ) (max b : ℕ) (succ : Bool) (r : Rw) (ts : List Trans)
    → All (Fits max) ts
    → IsOpen max (b + total_cost ts) r
    → Sets max b (set_trans_loop host succ r ts)
unfolding set_trans_loop
set_trans_loop-Sets host max b succ r [] fits o =
    (succ, r, refl, inr (IsOpen-weaken max (b + 0) b r (omega arith) o))
set_trans_loop-Sets host max b succ r (t ∷ ts) (fits, more) o =
    resume_trans-Sets max b (total_cost ts) (λ r'. set_trans_loop host true r' ts)
      (rw_add_trans host r t)
      (rw_add_trans-StaysOpen host max (b + total_cost ts) r t fits
        (IsOpen-weaken max (b + total_cost (t ∷ ts)) _ r (omega arith) o))
      (λ r' o'. set_trans_loop-Sets host max b true r' ts more o')

-- A request is a chain of as many packets as it says, from its first word to its last, each of whole
-- words and of at most `max` bytes.
pub record IsChained (max : ℕ) (q : Request) : Type 0 where
  pub sizes : List ℕ
  pub chain : IsChain q.rq 0 sizes (q.rq_num_bytes / 4)
  pub sized : All (IsSized max) sizes
  pub count : q.num_pl2_pkt ≡ length sizes
  pub words : q.rq_num_bytes % 4 ≡ 0
  pub few : q.rq_num_bytes < 2 ^ 31

rw_get_rq-IsChained : (max : ℕ) (r : Rw) → IsOpen max (0 + 4) r → IsChained max (rw_get_rq r).0
unfolding rw_get_rq pkt_finalize
rw_get_rq-IsChained max r o = rw o.got (record {
  sizes = o.closed ++ open_size r ∷ [];
  chain =
      subst (IsChain (finalize_headers r).rq_buf 0 (o.closed ++ open_size r ∷ []))
        (omega (arith, o.room)) (finalize_headers-IsChain max 0 r o);
  sized = closed-IsSized max 0 r o;
  count =
      omega (arith, o.count, o.few, o.behind, o.room, length-append o.closed (open_size r ∷ []));
  words = omega arith;
  few = omega arith;
})

-- What a budget of words leaves of the index.
rw_get_rq-inside :
    (max c : ℕ) (r : Rw)
    → c + 8 < 2 ^ 29
    → IsOpen max (2 ^ 29 - 5 - c) r
    → (rw_get_rq r).0.rq_num_bytes ≤ 4 * (c + 6)
unfolding rw_get_rq pkt_finalize
rw_get_rq-inside max c r small o = rw o.got (omega (arith, o.room))

-- On an object that `rw_start` configures, `rw_set_trans` of reads, of transactions of no known
-- type, and of writes where a packet may have 1060 bytes returns, if the transactions do not cost
-- more words than the buffer has, of less than 2^31 bytes: 24 for each byte, 12 for each transaction
-- and 8 for the headers. Either it returns `false`; or the request that `rw_get_rq` then gives is a
-- chain of as many PL2 packets as it says, from its first word to its last, each of which begins with
-- its length, is of whole words, has at least the 16 bytes of its headers, and exceeds neither the
-- agreed size of a PL2 packet nor the buffer; and the whole request fits into the buffer.
pub rw_get_rq-rw_set_trans :
    (host : Mem ℕ) (r : Rw) (ts : List Trans)
    → IsConfigured (limits (rw_start r))
    → All (Fits (rq_limit (limits (rw_start r)))) ts
    → total_cost ts + 8 ≤ r.rq_wi_max
    → r.rq_wi_max * 4 < 2 ^ 31
    → (t : Bool) × (r' : Rw) × (rw_set_trans host r ts ≡ some (t, r'))
      × ((t ≡ false)
          ⊎ (IsChained (rq_limit (limits (rw_start r))) (rw_get_rq r').0
              × ((rw_get_rq r').0.rq_num_bytes ≤ 4 * r.rq_wi_max)))
unfolding rw_set_trans
rw_get_rq-rw_set_trans host r ts conf fits room small =
    let b : ℕ = 2 ^ 29 - 5 - total_cost ts in
    let max : ℕ = rq_limit (limits (rw_start r)) in
    let (t, r', e, p) =
      set_trans_loop-Sets host max b false (rw_start r) ts fits
        (rw_start-IsOpen (b + total_cost ts) r conf (omega (arith, room, small))) in
    (
      t,
      r',
      e,
      elim p [
        | inl f ↦ inl f
        | inr o ↦ inr (
          rw_get_rq-IsChained max r'
              (IsOpen-weaken max b (0 + 4) r' (omega (arith, room, small)) o),
          omega
              (arith, rw_get_rq-inside max (total_cost ts) r' (omega (arith, room, small)) o, room),
        )
      ],
    )
