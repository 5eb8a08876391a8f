-- ===== src/Rw/Results.antt =====
-- What CTasPktHandlerRw makes of a parsed response: `rw_get_num_pl2_pkt`, `rw_get_trans_rsp` and
-- `rw_get_pl0_trans` (src/tas_client/tas_pkt_handler_rw.cpp).
use tas_client_api.Prelude.{
  ℕ, zero, suc, ◌+◌, ◌/◌, ◌%◌, Option, none, some, Mem, store, leb, ◌==◌, ◌!=◌, if◌then◌else◌, u16,
  u32, u64,
}
use tas_client_api.Pkt.Err
use tas_client_api.Rw.Trans.{Trans, TransRsp}
use tas_client_api.Rw.State.{Rw}

-- The locals of `rw_get_num_pl2_pkt`.
pub record Count : Type 0 where
  pub num_bytes_done : ℕ
  pub num_pl2_pkt : ℕ
  pub wi_pl2_hdr : ℕ

-- `while (true) { … }` of `rw_get_num_pl2_pkt`; `none` means that the fuel ran out.
unfoldable pub count_loop : Mem ℕ → ℕ → ℕ → ℕ → Count → Option ℕ
count_loop rsp num_bytes expected zero c = none
count_loop rsp num_bytes expected (suc fuel) c =
    let size = rsp c.wi_pl2_hdr in
    let c' : Count = record {
      num_bytes_done = u32 (c.num_bytes_done + size);
      num_pl2_pkt = u32 (c.num_pl2_pkt + 1);
      wi_pl2_hdr = u32 (c.wi_pl2_hdr + size / 4);
    } in
    let rest = count_loop rsp num_bytes expected fuel c' in
    if size % 4 != 0
    then some c.num_pl2_pkt
    else if leb num_bytes c'.num_bytes_done
    then some c'.num_pl2_pkt
    else if c'.num_pl2_pkt == expected
    then some c'.num_pl2_pkt
    else rest

unfoldable pub rw_get_num_pl2_pkt : ℕ → Rw → Mem ℕ → ℕ → Option ℕ
unfolding count_loop
rw_get_num_pl2_pkt fuel r rsp num_bytes =
    if r.num_pl2_pkt == 0
    then some 0
    else count_loop rsp num_bytes r.num_pl2_pkt fuel
        (record { num_bytes_done = 0; num_pl2_pkt = 0; wi_pl2_hdr = 0 })

-- The locals of `rw_get_trans_rsp`, with the object.
pub record Collect : Type 0 where
  pub rw : Rw
  pub addr_end : ℕ
  pub t : ℕ

-- `mRwTransRsp[t]` before its first PL0 transaction.
abbrev begin_rsp : ℕ → Rw → Rw
begin_rsp t r = record r {
  rw_trans_rsp = store r.rw_trans_rsp t (record { num_bytes_ok = 0; pl_err = Err.pl0_no_error });
}

-- The answers up to the first error are summed up.
abbrev add_rsp : TransRsp → TransRsp → TransRsp
add_rsp sum rsp =
    if sum.pl_err == Err.pl0_no_error
    then record { num_bytes_ok = u16 (sum.num_bytes_ok + rsp.num_bytes_ok); pl_err = rsp.pl_err }
    else sum

-- The loop of `rw_get_trans_rsp` over the PL0 transactions from `p` on, `n` of them.
unfoldable pub collect_loop : ℕ → ℕ → Collect → Rw
collect_loop zero p c = c.rw
collect_loop (suc n) p c =
    let pt = c.rw.pl0_trans p in
    let rt = c.rw.rw_trans c.t in
    let addr_end = if pt.addr == rt.addr then u64 (rt.addr + rt.num_bytes) else c.addr_end in
    let next = u64 (pt.addr + pt.num_bytes) in
    let sum = add_rsp (c.rw.rw_trans_rsp c.t) (c.rw.pl0_trans_rsp p) in
    let r : Rw = record c.rw { rw_trans_rsp = store c.rw.rw_trans_rsp c.t sum } in
    let t = u32 (c.t + 1) in
    let same = collect_loop n (p + 1) (record { rw = r; addr_end = addr_end; t = c.t }) in
    let other =
      collect_loop n (p + 1) (record { rw = begin_rsp t r; addr_end = addr_end; t = t }) in
    if leb addr_end next then (if t == r.rw_num_trans then r else other) else same

-- `rw_get_trans_rsp`: the number of transactions, and the object with their answers.
unfoldable pub rw_get_trans_rsp : Rw → ℕ × Rw
unfolding collect_loop
rw_get_trans_rsp r = (
  r.rw_num_trans,
  collect_loop r.pl0_num_trans 0 (record { rw = begin_rsp 0 r; addr_end = 0; t = 0 }),
)

-- `rw_get_pl0_trans`
abbrev pub rw_get_pl0_trans : Rw → ℕ × Mem Trans × Mem TransRsp
rw_get_pl0_trans r = (r.pl0_num_trans, r.pl0_trans, r.pl0_trans_rsp)
