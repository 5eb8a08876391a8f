-- ===== src/Rw/Selecting.antt =====
-- The headers that select the address map, the mode and the base address of a PL0 packet
-- (src/tas_client/tas_pkt_handler_rw.cpp).
use tas_client_api.Prelude.{
  ℕ, ◌+◌, ◌*◌, ◌^◌, ◌≤◌, ◌<◌, ◌≡◌, refl, ap, ◌∙◌, arith, u16, Bool-cases, inl, inr, ltb, ◌!=◌,
  bit_or, if◌then◌else◌,
}
use tas_client_api.Rw.State.{Rw}
use tas_client_api.Rw.Limits.{get_num_bytes_addr_map_acc_mode_base_addr, outside_base}
use tas_client_api.Rw.Add.{
  set_addr_map, set_acc_mode, set_base_addr, set_addr_map_acc_mode_base_addr,
}
use tas_client_api.Rw.Open.{Writes, Writes-trans}

-- The bytes of the headers that a packet needs.
abbrev pub headers : Rw → ℕ → ℕ → ℕ → ℕ
headers r m am a = get_num_bytes_addr_map_acc_mode_base_addr r m am a

pub headers-le : (r : Rw) (m am a : ℕ) → headers r m am a ≤ 16
unfolding get_num_bytes_addr_map_acc_mode_base_addr
headers-le r m am a = ground arith

Writes-refl : (r : Rw) → Writes r r
Writes-refl r = record {
  same = refl;
  hdr = refl;
  num = refl;
  start = refl;
  got = refl;
  grows = omega arith;
  below = λ k. λ lt. refl;
}

-- A step that writes the words of `n` bytes.
abbrev pub Adds : ℕ → Rw → Rw → Type 0
Adds n r r' = Writes r r' × (4 * r'.rq_buf_wi ≡ 4 * r.rq_buf_wi + n)

-- The index is behind the header, and does not wrap.
abbrev IsInside : Rw → Type 0
IsInside r = (r.pl2_hdr_wi ≤ r.rq_buf_wi) × (r.rq_buf_wi < 2 ^ 31)

set_addr_map-Adds :
    (r : Rw) (m : ℕ) → IsInside r → Adds (if m != r.pl0_addr_map then 4 else 0) r (set_addr_map r m)
unfolding set_addr_map
set_addr_map-Adds r m (behind, room) = elim (Bool-cases (m != r.pl0_addr_map)) [
  | inl e ↦ rw e (
    record {
      same = refl;
      hdr = refl;
      num = refl;
      start = refl;
      got = refl;
      grows = omega arith;
      below = λ k. λ lt. ground arith;
    },
    omega arith,
  )
  | inr e ↦ rw e (Writes-refl r, omega arith)
]

set_acc_mode-Adds :
    (r : Rw) (am : ℕ)
    → IsInside r
    → Adds (if am != r.pl0_acc_mode then 4 else 0) r (set_acc_mode r am)
unfolding set_acc_mode
set_acc_mode-Adds r am (behind, room) = elim (Bool-cases (am != r.pl0_acc_mode)) [
  | inl e ↦ rw e (
    record {
      same = refl;
      hdr = refl;
      num = refl;
      start = refl;
      got = refl;
      grows = omega arith;
      below = λ k. λ lt. ground arith;
    },
    omega arith,
  )
  | inr e ↦ rw e (Writes-refl r, omega arith)
]

abbrev base_size : Rw → ℕ → ℕ
base_size r a = if outside_base r a then (if ltb a 0x1_0000_0000 then 4 else 8) else 0

abbrev mode_size : Rw → ℕ → ℕ
mode_size r am = if am != r.pl0_acc_mode then 4 else 0

set_base_addr-Adds : (r : Rw) (a : ℕ) → IsInside r → Adds (base_size r a) r (set_base_addr r a)
unfolding set_base_addr
set_base_addr-Adds r a (behind, room) = elim (Bool-cases (outside_base r a)) [
  | inl e ↦ rw e (elim (Bool-cases (ltb a 0x1_0000_0000)) [
    | inl f ↦ rw f (
      record {
        same = refl;
        hdr = refl;
        num = refl;
        start = refl;
        got = refl;
        grows = omega arith;
        below = λ k. λ lt. ground arith;
      },
      omega arith,
    )
    | inr f ↦ rw f (
      record {
        same = refl;
        hdr = refl;
        num = refl;
        start = refl;
        got = refl;
        grows = omega arith;
        below = λ k. λ lt. ground arith;
      },
      omega arith,
    )
  ])
  | inr e ↦ rw e (Writes-refl r, omega arith)
]

Adds-trans : (n k : ℕ) (r r' r'' : Rw) → Adds n r r' → Adds k r' r'' → Adds (n + k) r r''
Adds-trans n k r r' r'' (w, e) (v, f) = (Writes-trans r r' r'' w v, omega (arith, e, f))

set_addr_map-keeps :
    (r : Rw) (m : ℕ)
    → ((set_addr_map r m).pl0_acc_mode ≡ r.pl0_acc_mode)
      × ((set_addr_map r m).pl0_base_addr ≡ r.pl0_base_addr)
unfolding set_addr_map
set_addr_map-keeps r m = ground arith

set_acc_mode-keeps : (r : Rw) (am : ℕ) → (set_acc_mode r am).pl0_base_addr ≡ r.pl0_base_addr
unfolding set_acc_mode
set_acc_mode-keeps r am = ground arith

same_base :
    (r r' : Rw) (a : ℕ) → r.pl0_base_addr ≡ r'.pl0_base_addr → base_size r a ≡ base_size r' a
same_base r r' a e = rw e refl

-- The three steps of the selection write the bytes that are counted for them.
steps-Adds :
    (r : Rw) (m am a : ℕ)
    → r.pl2_hdr_wi ≤ r.rq_buf_wi
    → r.rq_buf_wi < 2 ^ 29
    → Adds (headers r m am a) r (set_base_addr (set_acc_mode (set_addr_map r m) am) a)
unfolding get_num_bytes_addr_map_acc_mode_base_addr
steps-Adds r m am a behind room =
    let (w1, e1) = set_addr_map-Adds r m (behind, omega arith) in
    let (mode, base1) = set_addr_map-keeps r m in
    let e1' : r1.rq_buf_wi ≤ r.rq_buf_wi + 1 = ground (arith, e1) in
    let (w2, e2) = set_acc_mode-Adds r1 am (omega (arith, w1.hdr, w1.grows), omega (arith, e1')) in
    let base2 : r2.pl0_base_addr ≡ r.pl0_base_addr = set_acc_mode-keeps r1 am ∙ base1 in
    let e2' : r2.rq_buf_wi ≤ r1.rq_buf_wi + 1 = ground (arith, e2) in
    let (w3, e3) =
      set_base_addr-Adds r2 a
        (omega (arith, w1.hdr, w1.grows, w2.hdr, w2.grows), omega (arith, e1', e2')) in
    let own : base_size r2 a ≡ base_size r a = same_base r2 r a base2 in
    let own_mode : mode_size r1 am ≡ mode_size r am = ap (λ x. if am != x then 4 else 0) mode in
    (Writes-trans r r1 _ w1 (Writes-trans r1 r2 _ w2 w3), omega (arith, e1, e2, e3, own, own_mode))
  where
    r1 : Rw
    r1 = set_addr_map r m

    r2 : Rw
    r2 = set_acc_mode r1 am

-- The selection as a whole, which also marks the address map.
pub select-Adds :
    (r : Rw) (m am a : ℕ)
    → r.pl2_hdr_wi ≤ r.rq_buf_wi
    → r.rq_buf_wi < 2 ^ 29
    → Adds (headers r m am a) r (set_addr_map_acc_mode_base_addr r m am a)
unfolding set_addr_map_acc_mode_base_addr get_num_bytes_addr_map_acc_mode_base_addr
select-Adds r m am a behind room =
    let marked : Rw = record r { pl0_addr_map_mask = bit_or r.pl0_addr_map_mask (u16 (2 ^ m)) } in
    let marks : Writes r marked = record {
      same = refl;
      hdr = refl;
      num = refl;
      start = refl;
      got = refl;
      grows = omega arith;
      below = λ k. λ lt. refl;
    } in
    let (w, e) = steps-Adds marked m am a behind room in (Writes-trans r marked _ marks w, e)
