-- ===== src/Jtag/Plan.antt =====
-- What the transactions of tasutil_jtag_scan are meant to be: for each scan its preparation, and its
-- bits in blocks, each at its own place of the buffers (src/tas_client/tas_utils_jtag.cpp).
use tas_client_api.Prelude.{
  ℕ, zero, suc, ◌+◌, ◌-◌, ◌*◌, ◌/◌, ◌^◌, ◌≤◌, ◌<◌, ◌⊎◌, List, [], ◌∷◌, ◌++◌, ◌==◌, ◌!=◌, ltb,
  if◌then◌else◌,
}
use tas_client_api.Rw.Trans.{Trans, tt_rd, tt_wr}
use tas_client_api.Jtag.Scan.{Scan, Places, max_bits_trans}

-- A register of the JTAG interface, in address map 15, is written or read.
abbrev access : ℕ → ℕ → ℕ → ℕ → Trans
access type addr num_bytes buf = record {
  addr = addr;
  num_bytes = num_bytes;
  acc_mode = 0;
  addr_map = 15;
  type = type;
  buf = buf;
}

-- A scan is prepared: a reset if it is asked for, the instruction if the scan has a width for it, and
-- the capture, with the number of bits.
abbrev pub prepare : Places → ℕ → Scan → List Trans
prepare p s scan =
    (if scan.tjs == 1 then access tt_wr 0xC1800 4 p.res_dat ∷ [] else [])
    ++ ((if ltb 0 scan.ir_width then access tt_wr 0xC1300 8 (p.scans + 32 * s + 4) ∷ [] else [])
        ++ access tt_wr 0xC1400 4 (p.scans + 32 * s + 12) ∷ [])

-- A block of the `bits` that are left, of at most 8192 bits and in whole 64 bit words, is shifted in;
-- and what is shifted out is read, if there is a place for it.
abbrev pub shift_block : ℕ → ℕ → ℕ → List Trans
shift_block data_in data_out bits =
    let num_bytes : ℕ = ((if ltb 8192 bits then 8192 else bits) + 63) / 64 * 8 in
    access tt_wr 0xC1500 num_bytes data_in
    ∷ (if data_out != 0 then access tt_rd 0xC1500 num_bytes data_out ∷ [] else [])

-- A scan without bits has one empty block, too.
abbrev pub num_blocks : ℕ → ℕ
num_blocks bits = if bits == 0 then 1 else (bits + (max_bits_trans - 1)) / max_bits_trans

-- Where block `i` of the data comes from.
abbrev pub in_at : ℕ → Scan → ℕ → ℕ
in_at zero_data scan i = if scan.data_in == 0 then zero_data else scan.data_in + 1024 * i

-- Where block `i` of the result goes to, 0 for none.
abbrev pub out_at : Scan → ℕ → ℕ
out_at scan i = if scan.data_out == 0 then 0 else scan.data_out + 1024 * i

-- The `k` blocks from block `i` on.
abbrev pub blocks : ℕ → Scan → ℕ → ℕ → List Trans
blocks zero_data scan i zero = []
blocks zero_data scan i (suc k) =
    shift_block (in_at zero_data scan i) (out_at scan i) (scan.num_bits - max_bits_trans * i)
    ++ blocks zero_data scan (i + 1) k

abbrev pub scan_plan : Places → ℕ → Scan → List Trans
scan_plan p s scan = prepare p s scan ++ blocks p.zero_data scan 0 (num_blocks scan.num_bits)

abbrev pub scans_plan : Places → ℕ → List Scan → List Trans
scans_plan p s [] = []
scans_plan p s (scan ∷ scans) = scan_plan p s scan ++ scans_plan p (s + 1) scans

abbrev pub plan : Places → List Scan → List Trans
plan p scans =
    access tt_wr 0xC1100 4 p.res_dat
    ∷ (scans_plan p 0 scans ++ access tt_wr 0xC1200 4 p.res_dat ∷ [])

-- The buffers of a scan do not wrap around the end of memory, and the block for null pointers is not
-- inside of the data of the scan.
pub record IsApart (zero_data : ℕ) (scan : Scan) : Type 0 where
  pub in_fits : scan.data_in + 1024 * num_blocks scan.num_bits < 2 ^ 64
  pub out_fits : scan.data_out + 1024 * num_blocks scan.num_bits < 2 ^ 64
  pub apart :
      (scan.data_in + 1024 * num_blocks scan.num_bits ≤ zero_data) ⊎ (zero_data < scan.data_in)
