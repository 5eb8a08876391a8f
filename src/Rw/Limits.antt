-- ===== src/Rw/Limits.antt =====
-- The limits that CTasPktHandlerRw checks before it adds to a request
-- (src/tas_client/tas_pkt_handler_rw.cpp and .h).
use tas_client_api.Prelude.{
  ℕ, ◌+◌, ◌-◌, ◌*◌, ◌/◌, ◌%◌, ◌^◌, Bool, true, false, ◌&&◌, ◌||◌, ltb, leb, ◌==◌, ◌!=◌,
  if◌then◌else◌, u16, u32, sub32, bit_and,
}
use tas_client_api.Pkt.Size
use tas_client_api.Pkt.AddrMap
use tas_client_api.Rw.State.{Rw}

-- `mCheckLimits`
unfoldable pub check_limits : Rw → ℕ → ℕ → Bool
check_limits r num_bytes_rd num_bytes_wr =
    if leb (u32 (r.rq_wi_max * 4)) (u32 (r.rq_buf_wi * 4 + num_bytes_wr + 4))
    then false
    else if leb r.max_rsp_size (u32 (r.rsp_size + num_bytes_rd + 4))
    then false
    else true

-- Is `addr` outside of the 64 KB that the base address reaches?
abbrev pub outside_base : Rw → ℕ → Bool
outside_base r addr = ltb addr r.pl0_base_addr || ltb ((r.pl0_base_addr + 0xffff) % 2 ^ 64) addr

-- `mGetNumBytesAddrMapAccModeBaseAddr`
unfoldable pub get_num_bytes_addr_map_acc_mode_base_addr : Rw → ℕ → ℕ → ℕ → ℕ
get_num_bytes_addr_map_acc_mode_base_addr r addr_map acc_mode addr =
    (if addr_map != r.pl0_addr_map then Size.pl0rq_addr_map else 0)
    + (if acc_mode != r.pl0_acc_mode then Size.pl0rq_acc_mode else 0)
    + (if outside_base r addr
        then (if ltb addr 0x1_0000_0000 then Size.pl0rq_base_addr32 else Size.pl0rq_base_addr64)
        else 0)

-- `mCheckAddrMapRulesInPkt`
unfoldable pub check_addr_map_rules_in_pkt : Rw → ℕ → Bool
check_addr_map_rules_in_pkt r addr_map =
    let mask = u16 (2 ^ addr_map) in
    if r.pl0_addr_map_mask == 0 || r.pl0_addr_map_mask == mask
    then true
    else if bit_and mask AddrMap.mask_shared != 0
        && bit_and r.pl0_addr_map_mask AddrMap.mask_exclusive == 0
    then true
    else false

-- `tphrCheckIfNaturalAligned`
unfoldable pub check_if_natural_aligned : ℕ → ℕ → Bool
check_if_natural_aligned addr num_bytes =
    if num_bytes == 0 || num_bytes == 3 || num_bytes == 5 || num_bytes == 6 || num_bytes == 7
    then false
    else addr % num_bytes == 0

-- The number of transactions that at most 8 bytes take.
unfoldable pub num_trans_small : ℕ → ℕ → ℕ
unfolding check_if_natural_aligned
num_trans_small addr num_bytes =
    if check_if_natural_aligned addr num_bytes
    then 1
    else if num_bytes == 8 && addr % 8 == 4
    then 2
    else 4

abbrev pub num_trans_adder : ℕ → ℕ → ℕ
num_trans_adder addr num_bytes = if num_bytes % 8 == 0 && addr % 8 == 0 then 0 else 3

-- `mNumTransManageableRd`
unfoldable pub num_trans_manageable_rd : Rw → ℕ → ℕ → Bool
unfolding num_trans_small
num_trans_manageable_rd r addr num_bytes =
    if leb num_bytes 8
    then leb (u32 (r.pl2_num_trans + num_trans_small addr num_bytes)) r.num_trans_max
    else let payload_per_pkt =
        sub32 r.con_info.max_pl2rsp_pkt_size
          (4 + Size.pl1rsp_pl0_start + Size.pl0rsp_wr + Size.pl1rsp_pl0_end) in
      let num_trans_payload = sub32 (num_bytes + payload_per_pkt) 1 / payload_per_pkt in
      leb (u32 (r.pl2_num_trans + num_trans_payload + num_trans_adder addr num_bytes))
        r.num_trans_max

-- `mNumTransManageableWr`
unfoldable pub num_trans_manageable_wr : Rw → ℕ → ℕ → Bool
unfolding num_trans_small
num_trans_manageable_wr r addr num_bytes =
    if leb num_bytes 8
    then leb (u32 (r.pl2_num_trans + num_trans_small addr num_bytes)) r.num_trans_max
    else let payload =
        u32 (num_bytes + Size.pl0rq_acc_mode + Size.pl0rq_addr_map + Size.pl0rq_base_addr64) in
      let payload_per_pkt =
        sub32 r.con_info.max_pl2rq_pkt_size
          (4 + Size.pl1rq_pl0_start + Size.pl0rq_wrblk + Size.pl1rq_pl0_end) in
      let num_trans_payload = sub32 (payload + payload_per_pkt) 1 / payload_per_pkt in
      leb (u32 (r.pl2_num_trans + num_trans_payload + num_trans_adder addr num_bytes))
        r.num_trans_max

abbrev pub lesser : ℕ → ℕ → ℕ
lesser a b = if ltb b a then b else a

-- `mGetRemainingSizeInPktRq`
unfoldable pub get_remaining_size_in_pkt_rq : Rw → ℕ
get_remaining_size_in_pkt_rq r =
    let used = u32 (4 * sub32 r.rq_buf_wi r.pl2_hdr_wi) in
    let max = lesser r.con_info.max_pl2rq_pkt_size (u32 (r.rq_wi_max * 4)) in
    if ltb used max then max - used else 0

-- `mGetRemainingSizeInPktRsp`
unfoldable pub get_remaining_size_in_pkt_rsp : Rw → ℕ
get_remaining_size_in_pkt_rsp r =
    let used = sub32 r.rsp_size r.pl2_rsp_pkt_start in
    let max = lesser r.con_info.max_pl2rsp_pkt_size r.max_rsp_size in
    if ltb used max then max - used else 0

-- `mGetWrDataBlkSizeInPktRq`: the subtraction for a 64 bit base address can wrap.
unfoldable pub get_wr_data_blk_size_in_pkt_rq : Rw → ℕ → ℕ → ℕ
unfolding get_remaining_size_in_pkt_rq
get_wr_data_blk_size_in_pkt_rq r num_bytes addr =
    let remaining = get_remaining_size_in_pkt_rq r in
    let protocol = Size.pl0rq_wrblk + Size.pl1rq_pl0_end in
    if leb remaining protocol
    then 0
    else let room = remaining - protocol in
      let room' = if leb 0x1_0000_0000 addr then sub32 room Size.pl0rq_base_addr64 else room in
      lesser (lesser num_bytes room') r.max_wr_data_blk_size_in_pkt_rq / 8 * 8

-- `mGetRdDataBlkSizeInPktRsp`
unfoldable pub get_rd_data_blk_size_in_pkt_rsp : Rw → ℕ → ℕ
unfolding get_remaining_size_in_pkt_rsp
get_rd_data_blk_size_in_pkt_rsp r num_bytes =
    let remaining = get_remaining_size_in_pkt_rsp r in
    let protocol = Size.pl0rsp_rd + Size.pl1rsp_pl0_end in
    if leb remaining protocol
    then 0
    else let room = remaining - protocol in
      lesser (lesser num_bytes room) r.max_rd_data_blk_size_in_pkt_rsp / 8 * 8

-- `mCheckRemainingPktSizeSufficient`
unfoldable pub check_remaining_pkt_size_sufficient : Rw → ℕ → ℕ → Bool
unfolding get_remaining_size_in_pkt_rq get_remaining_size_in_pkt_rsp
check_remaining_pkt_size_sufficient r needed_rq needed_rsp =
    if ltb (get_remaining_size_in_pkt_rq r) needed_rq
    then false
    else if ltb (get_remaining_size_in_pkt_rsp r) needed_rsp
    then false
    else true
