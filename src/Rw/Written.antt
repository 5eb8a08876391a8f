-- ===== src/Rw/Written.antt =====
-- The packets that mPktAdd_Rd, mPktAdd_Wr and mPktAdd_Fill leave at the end of the request
-- (src/tas_client/tas_pkt_handler_rw.cpp).
use tas_client_api.Prelude.{
  ℕ, ◌+◌, ◌%◌, ◌^◌, ◌≤◌, ◌<◌, ◌≡◌, ◌≢◌, ap, false, Mem, arith, ◌==◌, if-lem, leb, u32,
}
use tas_client_api.Rw.State.{Rw, pkt_finalize}
use tas_client_api.Rw.Limits.{
  check_remaining_pkt_size_sufficient, get_num_bytes_addr_map_acc_mode_base_addr,
}
use tas_client_api.Rw.Frame.{begin_pl0-Keeps}
use tas_client_api.Rw.Add.{
  set_addr_map_acc_mode_base_addr, pkt_finalize_if_full, pkt_finalize_if_needed, begin_pl0,
  write_fill, push_pl0_trans, pkt_add_rd, pkt_add_wr, pkt_add_fill, rd_rq_size, rd_rsp_size,
  wr_rq_size, wr_rsp_size, fill_rq_size,
}
use tas_client_api.Rw.Decoded.{
  IsRead, IsWrite, IsFill, IsSize, rd_words, wr_words, write_rd-IsRead, write_wr-IsWrite,
  write_fill-IsFill, write_rd-end, write_wr-end,
}

-- What selecting and opening packets takes of the words.
full-Grows :
    (r : Rw) → r.rq_buf_wi + 300 < 2 ^ 29 → (pkt_finalize_if_full r).rq_buf_wi ≤ r.rq_buf_wi + 4
unfolding pkt_finalize_if_full pkt_finalize
full-Grows r room =
    if-lem (λ (x : Rw). x.rq_buf_wi ≤ r.rq_buf_wi + 4)
      (leb r.con_info.pl0_max_num_rw r.pl2_num_trans) (λ h. omega arith) (λ h. omega arith)

needed-Grows :
    (r : Rw) (rq rsp : ℕ)
    → r.rq_buf_wi + 300 < 2 ^ 29
    → (pkt_finalize_if_needed r rq rsp).rq_buf_wi ≤ r.rq_buf_wi + 4
unfolding pkt_finalize_if_needed pkt_finalize
needed-Grows r rq rsp room =
    if-lem (λ (x : Rw). x.rq_buf_wi ≤ r.rq_buf_wi + 4)
      (check_remaining_pkt_size_sufficient r rq rsp) (λ h. omega arith) (λ h. omega arith)

select-Grows :
    (r : Rw) (m am a : ℕ)
    → r.rq_buf_wi + 200 < 2 ^ 29
    → (set_addr_map_acc_mode_base_addr r m am a).rq_buf_wi ≤ r.rq_buf_wi + 4
unfolding set_addr_map_acc_mode_base_addr
select-Grows r m am a room = ground arith

begin_pl0-Grows :
    (r : Rw) (a am m rq rsp : ℕ)
    → r.rq_buf_wi + 320 < 2 ^ 29
    → (begin_pl0 r a am m rq rsp).rq_buf_wi ≤ r.rq_buf_wi + 12
unfolding begin_pl0
begin_pl0-Grows r a am m rq rsp room =
    let r1 : Rw = pkt_finalize_if_full r in
    let one = full-Grows r (omega arith) in
    let need : ℕ = u32 (get_num_bytes_addr_map_acc_mode_base_addr r1 m am a + rq) in
    let two = needed-Grows r1 need rsp (omega (arith, one)) in
    let three =
      select-Grows (pkt_finalize_if_needed r1 need rsp) m am a (omega (arith, one, two)) in
    omega (arith, one, two, three)

-- A packet stands at the end of the request.
abbrev pub Ends : Rw → ℕ → (Mem ℕ → ℕ → Type 0) → Type 0
Ends x words is_packet = (w : ℕ) × (x.rq_buf_wi ≡ w + words) × is_packet x.rq_buf w

pkt_add_rd-Ends :
    (r : Rw) (a n d am m : ℕ)
    → IsSize n
    → r.rq_buf_wi + 320 < 2 ^ 29
    → Ends (pkt_add_rd r a n d am m) (rd_words n) (λ buf. λ w. IsRead buf w a n)
unfolding pkt_add_rd push_pl0_trans
pkt_add_rd-Ends r a n d am m size room =
    let b : Rw = begin_pl0 r a am m rd_rq_size (rd_rsp_size n) in
    let le = begin_pl0-Grows r a am m rd_rq_size (rd_rsp_size n) room in
    let some_bytes : (n == 0) ≡ false = ground arith in
    rw some_bytes (
      b.rq_buf_wi,
      write_rd-end b a n (omega (arith, le, room)),
      write_rd-IsRead b a n size (omega (arith, le, room)),
    )

pkt_add_wr-Ends :
    (host : Mem ℕ) (r : Rw) (a n d am m k : ℕ)
    → IsSize n
    → d ≢ 0
    → k < n
    → r.rq_buf_wi + 320 < r.rq_wi_max
    → r.rq_wi_max < 2 ^ 29
    → Ends (pkt_add_wr host r a n d am m) (wr_words n) (λ buf. λ w. IsWrite host buf w a n d k)
unfolding pkt_add_wr push_pl0_trans
pkt_add_wr-Ends host r a n d am m k size there less room max =
    let b : Rw = begin_pl0 r a am m (wr_rq_size n) wr_rsp_size in
    let le = begin_pl0-Grows r a am m (wr_rq_size n) wr_rsp_size (omega arith) in
    let same : b.rq_wi_max ≡ r.rq_wi_max =
      ap (λ f. f.limit.rq_wi_max) (begin_pl0-Keeps r a am m (wr_rq_size n) wr_rsp_size) in
    let some_bytes : (n == 0) ≡ false = ground arith in
    rw some_bytes (
      b.rq_buf_wi,
      write_wr-end host b a n d size (omega (arith, le, room, max)),
      write_wr-IsWrite host b a n d k size there less (omega (arith, le, room, same))
          (omega (arith, max, same)),
    )

pkt_add_fill-Ends :
    (r : Rw) (a n v am m : ℕ)
    → (8 ≤ n) × (n ≤ 1024) × (n % 8 ≡ 0)
    → v < 2 ^ 64
    → r.rq_buf_wi + 320 < 2 ^ 29
    → Ends (pkt_add_fill r a n v am m) 4 (λ buf. λ w. IsFill buf w a n v)
unfolding pkt_add_fill push_pl0_trans write_fill
pkt_add_fill-Ends r a n v am m (least, most, words) small room =
    let b : Rw = begin_pl0 r a am m fill_rq_size wr_rsp_size in
    let le = begin_pl0-Grows r a am m fill_rq_size wr_rsp_size room in
    (
      b.rq_buf_wi,
      omega (arith, le, room),
      write_fill-IsFill b a n v least most words small (omega (arith, le, room)),
    )

-- For a size `n` that a PL0 command exists for, a block of `b` bytes to fill, of whole 64 bit words
-- and at most 1 KB, and a request with 320 words left of a buffer of less than 2^29: the request ends,
-- after `mPktAdd_Rd`, with a packet that a server reads as a read of `n` bytes; after `mPktAdd_Wr`
-- from a buffer that is not null, with one that it reads as a write of `n` bytes with the bytes `k`
-- of that buffer; and after `mPktAdd_Fill`, with one that it reads as a fill of `b` bytes with the
-- 64 bit value; each at the lower 16 bits of the address.
pub pkt_add-IsWritten :
    (host : Mem ℕ) (r : Rw) (a n d b v am m k : ℕ)
    → IsSize n
    → (8 ≤ b) × (b ≤ 1024) × (b % 8 ≡ 0)
    → v < 2 ^ 64
    → d ≢ 0
    → k < n
    → r.rq_buf_wi + 320 < r.rq_wi_max
    → r.rq_wi_max < 2 ^ 29
    → Ends (pkt_add_rd r a n d am m) (rd_words n) (λ buf. λ w. IsRead buf w a n)
      × Ends (pkt_add_wr host r a n d am m) (wr_words n) (λ buf. λ w. IsWrite host buf w a n d k)
      × Ends (pkt_add_fill r a b v am m) 4 (λ buf. λ w. IsFill buf w a b v)
pkt_add-IsWritten host r a n d b v am m k size blk small there less room max = (
  pkt_add_rd-Ends r a n d am m size (omega (arith, room, max)),
  pkt_add_wr-Ends host r a n d am m k size there less room max,
  pkt_add_fill-Ends r a b v am m blk small (omega (arith, room, max)),
)
