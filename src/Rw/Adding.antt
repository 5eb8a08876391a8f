-- ===== src/Rw/Adding.antt =====
-- `mPktAdd_Rd` and `mPktAdd_Wr` keep the PL2 packets within their limit
-- (src/tas_client/tas_pkt_handler_rw.cpp).
use tas_client_api.Prelude.{
  ℕ, ◌+◌, ◌*◌, ◌/◌, ◌^◌, ◌≤◌, ◌<◌, ◌≡◌, ◌≢◌, refl, ◌∙◌, Mem, arith, u32, Bool-cases, inl, inr,
  if-lem, ltb, leb, ◌==◌, memcpy-words_below,
}
use tas_client_api.Rw.State.{Rw}
use tas_client_api.Rw.Add.{
  write_rd, write_wr, push_pl0_trans, pkt_add_rd, pkt_add_wr, begin_pl0, rd_rq_size, rd_rsp_size,
  wr_rq_size, wr_rsp_size, blk_wl,
}
use tas_client_api.Rw.Trans.{tt_rd, tt_wr}
use tas_client_api.Rw.Open.{IsOpen, IsOpen-large, Writes, Writes-IsOpen}
use tas_client_api.Rw.Opening.{IsOpen-weaken, begin_pl0-HasRoom}

-- What writing a packet does: at most `n` more bytes of words.
abbrev Puts : ℕ → Rw → Rw → Type 0
Puts n r r' = Writes r r' × (4 * r'.rq_buf_wi ≤ 4 * r.rq_buf_wi + n)

push_pl0-Puts :
    (n : ℕ) (r r' : Rw) (a k type d : ℕ) → Puts n r r' → Puts n r (push_pl0_trans r' a k type d)
unfolding push_pl0_trans
push_pl0-Puts n r r' a k type d (w, e) = (
  record {
    same = w.same;
    hdr = w.hdr;
    num = w.num;
    start = w.start;
    got = w.got;
    grows = w.grows;
    below = w.below;
  },
  e,
)

write_rd-Puts :
    (r : Rw) (a n : ℕ)
    → r.pl2_hdr_wi ≤ r.rq_buf_wi
    → r.rq_buf_wi < 2 ^ 29
    → Puts 8 r (write_rd r a n)
unfolding write_rd
write_rd-Puts r a n behind room = elim (Bool-cases (leb n 8)) [
  | inl e ↦ rw e (
    record {
      same = refl;
      hdr = refl;
      num = refl;
      start = refl;
      got = refl;
      grows = omega arith;
      below = λ k. λ lt. ground arith;
    },
    omega arith,
  )
  | inr e ↦ rw e (
    record {
      same = refl;
      hdr = refl;
      num = refl;
      start = refl;
      got = refl;
      grows = omega arith;
      below = λ k. λ lt. ground arith;
    },
    omega arith,
  )
]

-- A packet that is written in the room that is found for it.
put-IsOpen :
    (max b n : ℕ) (r r' : Rw)
    → IsOpen max (b + n) r
    → 4 * r.rq_buf_wi + (n + 4) ≤ 4 * r.pl2_hdr_wi + max
    → Puts n r r'
    → IsOpen max b r'
put-IsOpen max b n r r' o fits (w, e) =
    Writes-IsOpen max (b + n) b r r' o w (omega (arith, o.room, e)) (omega (arith, fits, e))

-- A read takes at most 14 words with its headers, and with the ends and the starts of two packets.
pub pkt_add_rd-IsOpen :
    (max b : ℕ) (r : Rw) (a n d am m : ℕ)
    → IsOpen max (b + 20) r
    → IsOpen max b (pkt_add_rd r a n d am m)
unfolding pkt_add_rd
pkt_add_rd-IsOpen max b r a n d am m o =
    if-lem (IsOpen max b) (n == 0) (λ h. IsOpen-weaken max (b + 20) b r (omega arith) o)
      (λ h.
        let large = IsOpen-large max (b + 20) r o in
        let (o', fits) =
          begin_pl0-HasRoom max (b + 8) r a am m rd_rq_size (rd_rsp_size n)
            (IsOpen-weaken max (b + 20) (b + 8 + 12) r (omega arith) o) (omega arith)
            (omega (arith, large)) (omega arith) in
        put-IsOpen max b 8 _ _ o' fits (
          push_pl0-Puts 8 _ _ a n tt_rd d (
            write_rd-Puts (begin_pl0 r a am m rd_rq_size (rd_rsp_size n)) a n
              (omega (arith, o'.behind)) (omega (arith, o'.room)))))

-- The bytes of a write in whole words, with its command.
abbrev wr_size : ℕ → ℕ
wr_size n = 4 + (n + 3) / 4 * 4

write_wr-Puts :
    (host : Mem ℕ) (r : Rw) (a n d : ℕ)
    → n ≢ 0
    → n ≤ 1024
    → r.pl2_hdr_wi ≤ r.rq_buf_wi
    → r.rq_buf_wi < 2 ^ 29
    → Puts (wr_size n) r (write_wr host r a n d)
unfolding write_wr
write_wr-Puts host r a n d ne most behind room = elim (Bool-cases (leb n 8)) [
  | inl e ↦ rw e (
    record {
      same = refl;
      hdr = refl;
      num = refl;
      start = refl;
      got = refl;
      grows = ground arith;
      below = λ k. λ lt.
          if-lem (λ (x : Mem ℕ). x k ≡ r.rq_buf k) (d == 0) (λ h. ground arith)
            (λ h. memcpy-words_below host d n _ _ k (omega arith) ∙ ground arith);
    },
    ground arith,
  )
  | inr e ↦ rw e (
    record {
      same = refl;
      hdr = refl;
      num = refl;
      start = refl;
      got = refl;
      grows = ground arith;
      below = λ k. λ lt.
          if-lem (λ (x : Mem ℕ). x k ≡ r.rq_buf k)
            (ltb (u32 (r.rq_buf_wi + 1 + blk_wl n)) r.rq_wi_max)
            (λ h. memcpy-words_below host d n _ _ k (omega arith) ∙ ground arith)
            (λ h. ground arith);
    },
    ground arith,
  )
]

pub pkt_add_wr-IsOpen :
    (host : Mem ℕ) (max b : ℕ) (r : Rw) (a n d am m : ℕ)
    → n ≤ 1024
    → 1060 ≤ max
    → IsOpen max (b + 20 + n) r
    → IsOpen max b (pkt_add_wr host r a n d am m)
unfolding pkt_add_wr
pkt_add_wr-IsOpen host max b r a n d am m most large o =
    if-lem (IsOpen max b) (n == 0) (λ h. IsOpen-weaken max (b + 20 + n) b r (omega arith) o)
      (λ h.
        let size : wr_rq_size n ≡ wr_size n + 4 = omega arith in
        let (o', fits) =
          begin_pl0-HasRoom max (b + wr_size n) r a am m (wr_rq_size n) wr_rsp_size
            (IsOpen-weaken max (b + 20 + n) (b + wr_size n + 12) r (omega arith) o) (omega arith)
            (omega arith) (omega arith) in
        put-IsOpen max b (wr_size n) _ _ o' (omega (arith, fits, size)) (
          push_pl0-Puts (wr_size n) _ _ a n tt_wr d (
            write_wr-Puts host (begin_pl0 r a am m (wr_rq_size n) wr_rsp_size) a n d (ground arith)
              most (omega (arith, o'.behind)) (omega (arith, o'.room)))))
