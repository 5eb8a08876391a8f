-- ===== src/Rw/Opening.antt =====
-- A PL0 packet in the open PL2 packet: the headers that select its address map, mode and base address,
-- and the room for its own words (src/tas_client/tas_pkt_handler_rw.cpp).
use tas_client_api.Prelude.{ℕ, ◌+◌, ◌*◌, ◌^◌, ◌≤◌, ◌<◌, ◌≡◌, true, arith, u32, if-lem, leb}
use tas_client_api.Rw.State.{Rw, pkt_finalize}
use tas_client_api.Rw.Limits.{check_remaining_pkt_size_sufficient}
use tas_client_api.Rw.Add.{pkt_finalize_if_full, pkt_finalize_if_needed, begin_pl0}
use tas_client_api.Rw.Open.{IsOpen, Writes-IsOpen, pkt_finalize-IsOpen}
use tas_client_api.Rw.Selecting.{headers, headers-le, select-Adds}

-- The room is told by the index alone.
pub IsOpen-room :
    (max b b' : ℕ) (r : Rw) → r.rq_buf_wi + b' < 2 ^ 29 → IsOpen max b r → IsOpen max b' r
IsOpen-room max b b' r room o = record {
  conf = o.conf;
  limit = o.limit;
  room = room;
  closed = o.closed;
  chain = o.chain;
  sized = o.sized;
  count = o.count;
  few = o.few;
  start = o.start;
  got = o.got;
  behind = o.behind;
  fits = o.fits;
}

pub IsOpen-weaken : (max b b' : ℕ) (r : Rw) → b' ≤ b → IsOpen max b r → IsOpen max b' r
IsOpen-weaken max b b' r le o = IsOpen-room max b b' r (omega (arith, o.room)) o

pkt_finalize-starts :
    (r : Rw)
    → r.rq_buf_wi + 4 < 2 ^ 29
    → (pkt_finalize true r).rq_buf_wi ≡ (pkt_finalize true r).pl2_hdr_wi + 3
unfolding pkt_finalize
pkt_finalize-starts r room = omega arith

-- A test of the remaining size that succeeds.
room_left :
    (max b : ℕ) (r : Rw) (rq rsp : ℕ)
    → IsOpen max b r
    → 0 < rq
    → check_remaining_pkt_size_sufficient r rq rsp ≡ true
    → 4 * r.rq_buf_wi + rq ≤ 4 * r.pl2_hdr_wi + max
unfolding check_remaining_pkt_size_sufficient
room_left max b r rq rsp o pos h = ground (arith, o.limit, o.room, o.behind, o.conf.rq_small)

-- The PL2 packet that `mPktFinalizeIfNeeded` leaves has room for the headers and for `rq` bytes.
abbrev HasRoom : ℕ → ℕ → ℕ → ℕ → ℕ → ℕ → Rw → Type 0
HasRoom max b m am a rq r =
    IsOpen max b r × (4 * r.rq_buf_wi + headers r m am a + rq ≤ 4 * r.pl2_hdr_wi + max)

finalized-HasRoom :
    (max b : ℕ) (r : Rw) (m am a rq : ℕ)
    → IsOpen max (b + 4) r
    → 28 + rq ≤ max
    → HasRoom max b m am a rq (pkt_finalize true r)
finalized-HasRoom max b r m am a rq o le = (
  pkt_finalize-IsOpen max b r o,
  omega (
    arith,
    headers-le (pkt_finalize true r) m am a,
    pkt_finalize-starts r (omega (arith, o.room)),
  ),
)

needed-HasRoom :
    (max b : ℕ) (r : Rw) (m am a rq rsp : ℕ)
    → IsOpen max (b + 4) r
    → 0 < rq
    → 28 + rq ≤ max
    → rq < 2 ^ 20
    → HasRoom max b m am a rq (pkt_finalize_if_needed r (u32 (headers r m am a + rq)) rsp)
unfolding pkt_finalize_if_needed
needed-HasRoom max b r m am a rq rsp o pos le small =
    let size : u32 (headers r m am a + rq) ≡ headers r m am a + rq =
      omega (arith, headers-le r m am a) in
    if-lem (HasRoom max b m am a rq)
      (check_remaining_pkt_size_sufficient r (u32 (headers r m am a + rq)) rsp)
      (λ h. (
        IsOpen-weaken max (b + 4) b r (omega arith) o,
        omega (
          arith,
          size,
          room_left max (b + 4) r (u32 (headers r m am a + rq)) rsp o (omega (arith, size)) h,
        ),
      ))
      (λ h. finalized-HasRoom max b r m am a rq o le)

full-IsOpen : (max b : ℕ) (r : Rw) → IsOpen max (b + 4) r → IsOpen max b (pkt_finalize_if_full r)
unfolding pkt_finalize_if_full
full-IsOpen max b r o =
    if-lem (IsOpen max b) (leb r.con_info.pl0_max_num_rw r.pl2_num_trans)
      (λ h. pkt_finalize-IsOpen max b r o) (λ h. IsOpen-weaken max (b + 4) b r (omega arith) o)

-- What `begin_pl0` leaves: an open packet with its headers, and room for `rq` bytes.
pub begin_pl0-HasRoom :
    (max b : ℕ) (r : Rw) (a am m rq rsp : ℕ)
    → IsOpen max (b + 12) r
    → 4 < rq
    → 28 + rq ≤ max
    → rq < 2 ^ 20
    → IsOpen max b (begin_pl0 r a am m rq rsp)
      × (4 * (begin_pl0 r a am m rq rsp).rq_buf_wi + rq
          ≤ 4 * (begin_pl0 r a am m rq rsp).pl2_hdr_wi + max)
unfolding begin_pl0
begin_pl0-HasRoom max b r a am m rq rsp o pos le small =
    let (o2, fits) =
      needed-HasRoom max (b + 4) r1 m am a rq rsp
        (full-IsOpen max (b + 4 + 4) r
          (IsOpen-weaken max (b + 12) (b + 4 + 4 + 4) r (omega arith) o))
        (omega arith) le small in
    let (w, e) = select-Adds r2 m am a (omega (arith, o2.behind)) (omega (arith, o2.room)) in
    (
      Writes-IsOpen max (b + 4) b r2 _ o2 w (omega (arith, o2.room, e, headers-le r2 m am a))
          (omega (arith, fits, e)),
      omega (arith, fits, e, w.hdr),
    )
  where
    r1 : Rw
    r1 = pkt_finalize_if_full r

    r2 : Rw
    r2 = pkt_finalize_if_needed r1 (u32 (headers r1 m am a + rq)) rsp
