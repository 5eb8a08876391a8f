-- ===== src/Rw/Request.antt =====
-- The operations that build a request: `rw_add_rd`, `rw_add_wr`, `rw_add_fill`, `rw_set_trans`,
-- `rw_get_rq` and the two sizes (src/tas_client/tas_pkt_handler_rw.cpp). `none` means that the fuel
-- of a loop ran out; `host` is the caller's memory.
use tas_client_api.Prelude.{
  ℕ, zero, suc, ◌+◌, ◌*◌, ◌/◌, ◌%◌, ◌^◌, Option, none, some, List, [], ◌∷◌, Bool, true, false, ◌&&◌,
  ◌||◌, not, Mem, store, ltb, leb, ◌==◌, ◌!=◌, if◌then◌else◌, u32, u64, sub32,
}
use tas_client_api.Pkt.Err
use tas_client_api.Pkt.Size
use tas_client_api.Pkt.AddrMap
use tas_client_api.Rw.Trans.{Trans, tt_rd, tt_wr, tt_fill}
use tas_client_api.Rw.State.{Rw, pkt_finalize, rw_start}
use tas_client_api.Rw.Limits.{
  check_limits, check_addr_map_rules_in_pkt, num_trans_manageable_rd, num_trans_manageable_wr,
  get_wr_data_blk_size_in_pkt_rq, get_rd_data_blk_size_in_pkt_rsp,
  check_remaining_pkt_size_sufficient,
}
use tas_client_api.Rw.Add.{pkt_add_rd, pkt_add_wr, pkt_add_fill}
use tas_client_api.Rw.Split.{Cursor, Steps, split}

-- `mRwTrans[mRwNumTrans]` and `mRwTransRsp[mRwNumTrans]` are filled, and the counter steps.
unfoldable pub push_rw_trans : Rw → ℕ → ℕ → ℕ → ℕ → Rw
push_rw_trans r addr num_bytes type buf = record r {
  rw_trans = store r.rw_trans r.rw_num_trans (record {
    addr = addr;
    num_bytes = num_bytes;
    acc_mode = r.pl0_acc_mode;
    addr_map = r.pl0_addr_map;
    type = type;
    buf = buf;
  });
  rw_trans_rsp =
      store r.rw_trans_rsp r.rw_num_trans (record { num_bytes_ok = 0; pl_err = Err.pl_protocol });
  rw_num_trans = u32 (r.rw_num_trans + 1);
}

-- `uint8_t addrMap = (addr_map == TAS_AM132) ? TAS_AM15 : addr_map;`
abbrev pub effective_map : ℕ → ℕ
effective_map addr_map = if addr_map == AddrMap.am132 then AddrMap.am15 else addr_map

-- `if (cond) mPktFinalize();`
abbrev pub finalize_if : Bool → Rw → Rw
finalize_if b r = if b then pkt_finalize true r else r

abbrev words_of : ℕ → ℕ
words_of num_bytes = u32 (num_bytes + 3) / 4 * 4

-- The state from which `rw_add_rd` begins to add: the packets that it closes first.
unfoldable pub prepare_rd : Rw → ℕ → ℕ → ℕ → Rw
prepare_rd r addr num_bytes addr_map =
    let r' = finalize_if (not (num_trans_manageable_rd r addr num_bytes)) r in
    let whole = leb AddrMap.am12 addr_map || leb num_bytes 16 in
    let fits =
      check_remaining_pkt_size_sufficient r' 32
        (if whole then u32 (16 + words_of num_bytes) else 64) in
    finalize_if (not fits || not (check_addr_map_rules_in_pkt r' (effective_map addr_map))) r'

unfoldable pub prepare_wr : Rw → ℕ → ℕ → ℕ → Rw
prepare_wr r addr num_bytes addr_map =
    let r' = finalize_if (not (num_trans_manageable_wr r addr num_bytes)) r in
    let whole = leb AddrMap.am12 addr_map || leb num_bytes 16 in
    let fits =
      check_remaining_pkt_size_sufficient r' (if whole then u32 (32 + words_of num_bytes) else 80)
        32 in
    finalize_if (not fits || not (check_addr_map_rules_in_pkt r' (effective_map addr_map))) r'

abbrev pub rd_steps : ℕ → ℕ → Steps
rd_steps acc_mode addr_map = record {
  add = λ r a n d. pkt_add_rd r a n d acc_mode addr_map;
  blk_size = λ r nb a. get_rd_data_blk_size_in_pkt_rsp r nb;
}

abbrev pub wr_steps : Mem ℕ → ℕ → ℕ → Steps
wr_steps host acc_mode addr_map = record {
  add = λ r a n d. pkt_add_wr host r a n d acc_mode addr_map;
  blk_size = get_wr_data_blk_size_in_pkt_rq;
}

-- The transaction of the caller is noted when all of its packets are added.
abbrev pub note_trans : ℕ → ℕ → ℕ → ℕ → Option Cursor → Option (Bool × Rw)
note_trans addr num_bytes type buf none = none
note_trans addr num_bytes type buf (some c) =
    some (true, push_rw_trans c.rw addr num_bytes type buf)

-- The common refusals: nothing to do, no room, or an address map above 15.
unfoldable pub accepts : Rw → ℕ → ℕ → ℕ → ℕ → Bool
accepts r num_bytes rd wr addr_map =
    num_bytes != 0 && check_limits r rd wr && leb (effective_map addr_map) AddrMap.am15

unfoldable pub rw_add_rd : ℕ → Rw → ℕ → ℕ → ℕ → ℕ → ℕ → Option (Bool × Rw)
rw_add_rd fuel r addr num_bytes buf acc_mode addr_map =
    if accepts r num_bytes num_bytes 0 addr_map
    then note_trans addr num_bytes tt_rd buf (
        split (rd_steps acc_mode (effective_map addr_map)) fuel
          (record { rw = prepare_rd r addr num_bytes addr_map; a = addr; nb = num_bytes; d = buf }))
    else some (false, r)

unfoldable pub rw_add_wr : Mem ℕ → ℕ → Rw → ℕ → ℕ → ℕ → ℕ → ℕ → Option (Bool × Rw)
rw_add_wr host fuel r addr num_bytes buf acc_mode addr_map =
    if accepts r num_bytes 0 num_bytes addr_map
    then note_trans addr num_bytes tt_wr buf (
        split (wr_steps host acc_mode (effective_map addr_map)) fuel
          (record { rw = prepare_wr r addr num_bytes addr_map; a = addr; nb = num_bytes; d = buf }))
    else some (false, r)

-- The loop of `rw_add_fill`: blocks of at most 1 KB.
unfoldable pub fill_loop : ℕ → Rw → ℕ → ℕ → ℕ → ℕ → ℕ → Option Rw
fill_loop zero r a nb value acc_mode addr_map = none
fill_loop (suc fuel) r a nb value acc_mode addr_map =
    let now = if ltb Size.pl0_data_blk_size nb then Size.pl0_data_blk_size else nb in
    let r' = pkt_add_fill r a now value acc_mode addr_map in
    let rest = fill_loop fuel r' (u64 (a + now)) (sub32 nb now) value acc_mode addr_map in
    if ltb 0 (sub32 nb now) then rest else some r'

unfoldable pub prepare_fill : Rw → ℕ → ℕ → Rw
prepare_fill r addr addr_map =
    let r' = finalize_if (not (num_trans_manageable_wr r addr 8)) r in
    finalize_if
      (not (check_remaining_pkt_size_sufficient r' 40 32)
        || not (check_addr_map_rules_in_pkt r' addr_map))
      r'

abbrev pub note_fill : ℕ → ℕ → Option Rw → Option (Bool × Rw)
note_fill addr num_bytes none = none
note_fill addr num_bytes (some r) = some (true, push_rw_trans r addr num_bytes tt_fill 0)

unfoldable pub rw_add_fill : ℕ → Rw → ℕ → ℕ → ℕ → ℕ → ℕ → Option (Bool × Rw)
rw_add_fill fuel r addr num_bytes value acc_mode addr_map =
    if addr % 8 != 0
      || num_bytes == 0
      || num_bytes % 8 != 0
      || acc_mode != 0
      || leb AddrMap.am12 addr_map
    then some (false, r)
    else if check_limits r 0 num_bytes
    then note_fill addr num_bytes
        (fill_loop fuel (prepare_fill r addr addr_map) addr num_bytes value acc_mode addr_map)
    else some (false, r)

-- The 64 bit value behind a pointer.
unfoldable pub load64 : Mem ℕ → ℕ → ℕ
load64 host p =
    host p
    + 2 ^ 8 * host (p + 1)
    + 2 ^ 16 * host (p + 2)
    + 2 ^ 24 * host (p + 3)
    + 2 ^ 32 * host (p + 4)
    + 2 ^ 40 * host (p + 5)
    + 2 ^ 48 * host (p + 6)
    + 2 ^ 56 * host (p + 7)

-- One transaction of `rw_set_trans`. The fuel is enough for its own number of bytes.
unfoldable pub rw_add_trans : Mem ℕ → Rw → Trans → Option (Bool × Rw)
unfolding load64
rw_add_trans host r t =
    if t.type == tt_rd
    then rw_add_rd (t.num_bytes + 2) r t.addr t.num_bytes t.buf t.acc_mode t.addr_map
    else if t.type == tt_wr
    then rw_add_wr host (t.num_bytes + 2) r t.addr t.num_bytes t.buf t.acc_mode t.addr_map
    else if t.type == tt_fill
    then rw_add_fill (t.num_bytes + 2) r t.addr t.num_bytes (load64 host t.buf) t.acc_mode
        t.addr_map
    else some (false, r)

-- After a transaction the loop of `rw_set_trans` goes on, or all is undone.
abbrev pub resume_trans : (Rw → Option (Bool × Rw)) → Option (Bool × Rw) → Option (Bool × Rw)
resume_trans rest none = none
resume_trans rest (some (true, r)) = rest r
resume_trans rest (some (false, r)) = some (false, rw_start r)

-- The loop of `rw_set_trans` over the transactions left; `succ` is the last result.
unfoldable pub set_trans_loop : Mem ℕ → Bool → Rw → List Trans → Option (Bool × Rw)
set_trans_loop host succ r [] = some (succ, r)
set_trans_loop host succ r (t ∷ ts) =
    resume_trans (λ r'. set_trans_loop host true r' ts) (rw_add_trans host r t)

unfoldable pub rw_set_trans : Mem ℕ → Rw → List Trans → Option (Bool × Rw)
unfolding set_trans_loop
rw_set_trans host r ts = set_trans_loop host false (rw_start r) ts

unfoldable pub rw_get_rq_size : Rw → ℕ
rw_get_rq_size r =
    if r.get_pkt_rq_was_called
    then u32 (r.rq_buf_wi * 4)
    else u32 (r.rq_buf_wi * 4 + Size.pl1rq_pl0_end)

unfoldable pub rw_get_rsp_size : Rw → ℕ
rw_get_rsp_size r =
    if r.get_pkt_rq_was_called then r.rsp_size else u32 (r.rsp_size + Size.pl1rsp_pl0_end)

pub record Request : Type 0 where
  pub rq : Mem ℕ
  pub rq_num_bytes : ℕ
  pub rsp_num_bytes_max : ℕ
  pub num_pl2_pkt : ℕ

unfoldable pub rw_get_rq : Rw → Request × Rw
unfolding rw_get_rq_size rw_get_rsp_size
rw_get_rq r =
    let r' : Rw =
      if r.get_pkt_rq_was_called
      then r
      else record (pkt_finalize false r) { get_pkt_rq_was_called = true } in
    (
      record {
        rq = r'.rq_buf;
        rq_num_bytes = rw_get_rq_size r';
        rsp_num_bytes_max = rw_get_rsp_size r';
        num_pl2_pkt = r'.num_pl2_pkt;
      },
      r',
    )
