-- ===== src/Rw/Add.antt =====
-- One PL0 packet: `mPktAdd_SetAddrMapAccModeBaseAddr`, `mPktAdd_Rd`, `mPktAdd_Wr`, `mPktAdd_Fill`
-- (src/tas_client/tas_pkt_handler_rw.cpp). `host` is the caller's memory.
use tas_client_api.Prelude.{
  ℕ, ◌+◌, ◌-◌, ◌*◌, ◌/◌, ◌^◌, true, Mem, store, ltb, leb, ◌==◌, ◌!=◌, if◌then◌else◌, u8, u16, u32,
  byte1, bytes4, bytes2_half, bit_or, memcpy_to_words,
}
use tas_client_api.Pkt.Cmd
use tas_client_api.Pkt.Err
use tas_client_api.Pkt.Size
use tas_client_api.Rw.Trans.{tt_rd, tt_wr, tt_fill}
use tas_client_api.Rw.State.{Rw, pkt_finalize}
use tas_client_api.Rw.Limits.{
  outside_base, get_num_bytes_addr_map_acc_mode_base_addr, check_remaining_pkt_size_sufficient,
}

-- The word at the write index is set, and the index moves past it.
abbrev pub put_word : Rw → ℕ → Rw
put_word r w = record r { rq_buf = store r.rq_buf r.rq_buf_wi w; rq_buf_wi = u32 (r.rq_buf_wi + 1) }

unfoldable pub set_addr_map : Rw → ℕ → Rw
set_addr_map r addr_map =
    if addr_map != r.pl0_addr_map
    then record (put_word r (bytes4 0 Cmd.pl0_addr_map addr_map 0)) { pl0_addr_map = addr_map }
    else r

unfoldable pub set_acc_mode : Rw → ℕ → Rw
set_acc_mode r acc_mode =
    if acc_mode != r.pl0_acc_mode
    then record (put_word r (bytes2_half 0 Cmd.pl0_access_mode acc_mode)) {
      pl0_acc_mode = acc_mode;
    }
    else r

unfoldable pub set_base_addr : Rw → ℕ → Rw
set_base_addr r addr =
    if outside_base r addr
    then (if ltb addr 0x1_0000_0000
        then record (put_word r (bytes2_half 0 Cmd.pl0_base_addr32 (addr / 2 ^ 16))) {
          pl0_base_addr = addr / 2 ^ 16 * 2 ^ 16;
        }
        else record (put_word (put_word r (bytes2_half 1 Cmd.pl0_base_addr64 (addr / 2 ^ 16)))
            (u32 (addr / 2 ^ 32))) { pl0_base_addr = addr / 2 ^ 16 * 2 ^ 16 })
    else r

-- `mPktAdd_SetAddrMapAccModeBaseAddr`
unfoldable pub set_addr_map_acc_mode_base_addr : Rw → ℕ → ℕ → ℕ → Rw
unfolding set_addr_map set_acc_mode set_base_addr
set_addr_map_acc_mode_base_addr r addr_map acc_mode addr =
    let marked : Rw = record r {
      pl0_addr_map_mask = bit_or r.pl0_addr_map_mask (u16 (2 ^ addr_map));
    } in
    set_base_addr (set_acc_mode (set_addr_map marked addr_map) acc_mode) addr

-- The number of transactions of a packet is limited: start a new PL2 packet at the limit.
unfoldable pub pkt_finalize_if_full : Rw → Rw
pkt_finalize_if_full r =
    if leb r.con_info.pl0_max_num_rw r.pl2_num_trans then pkt_finalize true r else r

-- `mPktFinalizeIfNeeded`
unfoldable pub pkt_finalize_if_needed : Rw → ℕ → ℕ → Rw
pkt_finalize_if_needed r needed_rq needed_rsp =
    if check_remaining_pkt_size_sufficient r needed_rq needed_rsp then r else pkt_finalize true r

-- The bytes that a packet needs in the request and in the response, with the end of the PL1 packet.
abbrev pub rd_rq_size : ℕ
rd_rq_size = Size.pl0rq_rdblk + Size.pl1rq_pl0_end

abbrev pub rd_rsp_size : ℕ → ℕ
rd_rsp_size num_bytes = u32 (Size.pl0rsp_rd + u32 (num_bytes + 3) / 4 * 4 + Size.pl1rsp_pl0_end)

abbrev pub wr_rq_size : ℕ → ℕ
wr_rq_size num_bytes = u32 (Size.pl0rq_wrblk + u32 (num_bytes + 3) / 4 * 4 + Size.pl1rq_pl0_end)

abbrev pub fill_rq_size : ℕ
fill_rq_size = Size.pl0rq_wrblk + 8 + Size.pl1rq_pl0_end

abbrev pub wr_rsp_size : ℕ
wr_rsp_size = Size.pl0rsp_wr + Size.pl1rsp_pl0_end

-- What the three functions do before they write their own packet: find a PL2 packet with room for
-- `rq` bytes beside the headers and for `rsp` bytes, and select map, mode and base address.
unfoldable pub begin_pl0 : Rw → ℕ → ℕ → ℕ → ℕ → ℕ → Rw
unfolding pkt_finalize_if_full pkt_finalize_if_needed set_addr_map_acc_mode_base_addr
begin_pl0 r addr acc_mode addr_map rq rsp =
    let r' = pkt_finalize_if_full r in
    let headers = get_num_bytes_addr_map_acc_mode_base_addr r' addr_map acc_mode addr in
    set_addr_map_acc_mode_base_addr (pkt_finalize_if_needed r' (u32 (headers + rq)) rsp) addr_map
      acc_mode addr

-- `mPl0Trans[mPl0NumTrans]` and `mPl0TransRsp[mPl0NumTrans]` are filled, and the counters step.
unfoldable pub push_pl0_trans : Rw → ℕ → ℕ → ℕ → ℕ → Rw
push_pl0_trans r addr num_bytes type buf = record r {
  pl0_trans = store r.pl0_trans r.pl0_num_trans (record {
    addr = addr;
    num_bytes = num_bytes;
    acc_mode = r.pl0_acc_mode;
    addr_map = r.pl0_addr_map;
    type = type;
    buf = buf;
  });
  pl0_trans_rsp =
      store r.pl0_trans_rsp r.pl0_num_trans (record { num_bytes_ok = 0; pl_err = Err.pl_protocol });
  pl0_num_trans = u32 (r.pl0_num_trans + 1);
  pl2_num_trans = u32 (r.pl2_num_trans + 1);
}

-- The command byte; for a number of bytes without one the byte of the buffer stays.
abbrev rd_cmd : ℕ → ℕ → ℕ
rd_cmd num_bytes old =
    if num_bytes == 1
    then Cmd.pl0_rd8
    else if num_bytes == 2
    then Cmd.pl0_rd16
    else if num_bytes == 4
    then Cmd.pl0_rd32
    else if num_bytes == 8
    then Cmd.pl0_rd64
    else old

abbrev wr_cmd : ℕ → ℕ → ℕ
wr_cmd num_bytes old =
    if num_bytes == 1
    then Cmd.pl0_wr8
    else if num_bytes == 2
    then Cmd.pl0_wr16
    else if num_bytes == 4
    then Cmd.pl0_wr32
    else if num_bytes == 8
    then Cmd.pl0_wr64
    else old

unfoldable pub write_rd : Rw → ℕ → ℕ → Rw
write_rd r addr num_bytes =
    let cmd = rd_cmd num_bytes (byte1 (r.rq_buf r.rq_buf_wi)) in
    if leb num_bytes 8
    then record (put_word r (bytes2_half 0 cmd addr)) {
      rsp_size = u32 (r.rsp_size + Size.pl0rsp_rd + (if cmd == Cmd.pl0_rd64 then 8 else 4));
    }
    else record (put_word (put_word r (bytes2_half 1 Cmd.pl0_rdblk addr)) (u8 (num_bytes / 4))) {
      rsp_size = u32 (r.rsp_size + (Size.pl0rsp_rd + num_bytes));
    }

-- `mPktAdd_Rd`
unfoldable pub pkt_add_rd : Rw → ℕ → ℕ → ℕ → ℕ → ℕ → Rw
unfolding begin_pl0 write_rd push_pl0_trans
pkt_add_rd r addr num_bytes buf acc_mode addr_map =
    if num_bytes == 0
    then r
    else push_pl0_trans
        (write_rd (begin_pl0 r addr acc_mode addr_map rd_rq_size (rd_rsp_size num_bytes)) addr
          num_bytes)
        addr num_bytes tt_rd buf

-- The words after the command: zero first, then the data. A null pointer copies nothing.
abbrev wr_data : Mem ℕ → Rw → ℕ → ℕ → Mem ℕ
wr_data host r num_bytes buf =
    let cleared : Mem ℕ = store r.rq_buf (u32 (r.rq_buf_wi + 1)) 0 in
    if buf == 0
    then cleared
    else memcpy_to_words host buf num_bytes cleared (4 * u32 (r.rq_buf_wi + 1))

-- The word count of a block of 1 KB is 0 in its byte, and stands for 256.
abbrev pub blk_wl : ℕ → ℕ
blk_wl num_bytes = if u8 (num_bytes / 4) == 0 then 256 else u8 (num_bytes / 4)

unfoldable pub write_wr : Mem ℕ → Rw → ℕ → ℕ → ℕ → Rw
write_wr host r addr num_bytes buf =
    let w = r.rq_buf_wi in
    if leb num_bytes 8
    then (let wl : ℕ = if ltb 4 num_bytes then 2 else 1 in
        let cmd = wr_cmd num_bytes (byte1 (r.rq_buf w)) in
        let head : Rw = record r { rq_buf = store r.rq_buf w (bytes2_half wl cmd addr) } in
        record r {
          rq_buf = wr_data host head num_bytes buf;
          rq_buf_wi = u32 (w + (1 + wl));
          rsp_size = u32 (r.rsp_size + Size.pl0rsp_wr);
        })
    else (let wi_new = u32 (w + 1 + blk_wl num_bytes) in
        let head : Mem ℕ = store r.rq_buf w (bytes2_half (num_bytes / 4) Cmd.pl0_wrblk addr) in
        record r {
          rq_buf =
              if ltb wi_new r.rq_wi_max
              then memcpy_to_words host buf num_bytes head (4 * u32 (w + 1))
              else head;
          rq_buf_wi = wi_new;
          rsp_size = u32 (r.rsp_size + Size.pl0rsp_wr);
        })

-- `mPktAdd_Wr`
unfoldable pub pkt_add_wr : Mem ℕ → Rw → ℕ → ℕ → ℕ → ℕ → ℕ → Rw
unfolding begin_pl0 write_wr push_pl0_trans
pkt_add_wr host r addr num_bytes buf acc_mode addr_map =
    if num_bytes == 0
    then r
    else push_pl0_trans
        (write_wr host (begin_pl0 r addr acc_mode addr_map (wr_rq_size num_bytes) wr_rsp_size) addr
          num_bytes buf)
        addr num_bytes tt_wr buf

unfoldable pub write_fill : Rw → ℕ → ℕ → ℕ → Rw
write_fill r addr num_bytes value =
    record (put_word
      (put_word
        (put_word (put_word r (bytes2_half (Size.pl0rq_fill / 4 - 1) Cmd.pl0_fill addr))
          (u8 (num_bytes / 4)))
        (u32 value))
      (u32 (value / 2 ^ 32))) { rsp_size = u32 (r.rsp_size + Size.pl0rsp_wr) }

-- `mPktAdd_Fill`. `wdata` points to the value in the request buffer; nothing reads it, and it is 0.
unfoldable pub pkt_add_fill : Rw → ℕ → ℕ → ℕ → ℕ → ℕ → Rw
unfolding begin_pl0 write_fill push_pl0_trans
pkt_add_fill r addr num_bytes value acc_mode addr_map =
    push_pl0_trans
      (write_fill (begin_pl0 r addr acc_mode addr_map fill_rq_size wr_rsp_size) addr num_bytes
        value)
      addr num_bytes tt_fill 0
