-- ===== src/Rw/Counting.antt =====
-- The number of PL2 packets that `rw_get_num_pl2_pkt` finds
-- (src/tas_client/tas_pkt_handler_rw.cpp).
use tas_client_api.Prelude.{
  ℕ, zero, suc, ◌+◌, ◌%◌, ◌≤◌, ◌<◌, ◌^◌, ◌≡◌, refl, some, Mem, leb, ◌==◌, ◌!=◌, u32, arith,
  Bool-cases, inl, inr,
}
use tas_client_api.Rw.State.{Rw}
use tas_client_api.Rw.Results.{Count, count_loop, rw_get_num_pl2_pkt}

count_loop-ends :
    (rsp : Mem ℕ) (num_bytes expected fuel : ℕ) (c : Count)
    → expected < 2 ^ 32
    → c.num_pl2_pkt < expected
    → expected ≤ c.num_pl2_pkt + fuel
    → (k : ℕ) × (count_loop rsp num_bytes expected fuel c ≡ some k) × (k ≤ expected)
unfolding count_loop
count_loop-ends rsp num_bytes expected zero c small lt enough = absurd (omega arith)
count_loop-ends rsp num_bytes expected (suc fuel) c small lt enough =
    elim (Bool-cases (rsp c.wi_pl2_hdr % 4 != 0)) [
      | inl e ↦ rw e (c.num_pl2_pkt, refl, omega arith)
      | inr e ↦ elim (Bool-cases (leb num_bytes (u32 (c.num_bytes_done + rsp c.wi_pl2_hdr)))) [
        | inl f ↦ rw (e, f) (u32 (c.num_pl2_pkt + 1), refl, omega arith)
        | inr f ↦ elim (Bool-cases (u32 (c.num_pl2_pkt + 1) == expected)) [
          | inl g ↦ rw (e, f, g) (u32 (c.num_pl2_pkt + 1), refl, omega arith)
          | inr g ↦
              rw (e, f, g)
                (count_loop-ends rsp num_bytes expected fuel _ small (ground arith) (omega arith))
        ]
      ]
    ]

-- `rw_get_num_pl2_pkt` returns for every response and a number of packets of the request below 2^32, also for one of packets of size 0: a round for
-- each packet of the request is enough, and the number is at most that of the request.
pub rw_get_num_pl2_pkt-bounded :
    (fuel : ℕ) (r : Rw) (rsp : Mem ℕ) (num_bytes : ℕ)
    → r.num_pl2_pkt < 2 ^ 32
    → r.num_pl2_pkt ≤ fuel
    → (k : ℕ) × (rw_get_num_pl2_pkt fuel r rsp num_bytes ≡ some k) × (k ≤ r.num_pl2_pkt)
unfolding rw_get_num_pl2_pkt
rw_get_num_pl2_pkt-bounded fuel r rsp num_bytes small enough =
    elim (Bool-cases (r.num_pl2_pkt == 0)) [
      | inl e ↦ rw e (0, refl, omega arith)
      | inr e ↦
          rw e
            (count_loop-ends rsp num_bytes r.num_pl2_pkt fuel _ small (ground arith) (omega arith))
    ]
