-- ===== src/Jtag/Scan.antt =====
-- tasutil_jtag_scan (src/tas_client/tas_utils_jtag.cpp). The transactions are the list of those that
-- the source writes to its array, whose index `t` is the length of the list.
use tas_client_api.Prelude.{
  ℕ, zero, suc, ◌+◌, ◌-◌, ◌*◌, ◌/◌, ◌&&◌, Option, none, some, List, [], ◌∷◌, ◌++◌, Mem, ltb, ◌==◌,
  ◌!=◌, if◌then◌else◌, u64, length,
}
use tas_client_api.ErrorInfo.{TasReturn, err_none, err_fn_param, is_err}
use tas_client_api.Pkt.AddrMap.{am15}
use tas_client_api.Rw.Trans.{Trans, tt_rd, tt_wr}
use tas_client_api.Client.MailboxIf.{MailboxIf}
use tas_client_api.Client.Rw.{ClientRw, Executed, executed, execute_trans}

-- The addresses of address map 15 for JTAG, and the bits of one transaction.
abbrev pub jtag_scan_mode_enable : ℕ
jtag_scan_mode_enable = 0x000C1100

abbrev pub jtag_scan_mode_disable : ℕ
jtag_scan_mode_disable = 0x000C1200

abbrev pub jtag_set_ir : ℕ
jtag_set_ir = 0x000C1300

abbrev pub jtag_capture : ℕ
jtag_capture = 0x000C1400

abbrev pub jtag_data_shift : ℕ
jtag_data_shift = 0x000C1500

abbrev pub jtag_reset : ℕ
jtag_reset = 0x000C1800

abbrev pub max_bits_trans : ℕ
max_bits_trans = 1024 * 8

-- `tasutil_jtag_scan_et`
abbrev pub tjs_none : ℕ
tjs_none = 0

abbrev pub tjs_tap_reset : ℕ
tjs_tap_reset = 1

-- `tasutil_jtag_scan_st`, of 32 bytes: `ir` stands at offset 4, and `num_bits` at 12. `data_in` and
-- `data_out` are addresses, 0 for `nullptr`.
pub record Scan : Type 0 where
  pub tjs : ℕ
  pub ir_width : ℕ
  pub num_bits : ℕ
  pub data_in : ℕ
  pub data_out : ℕ

-- Where the scans, `resDat` and the data block for null pointers stand in memory.
pub record Places : Type 0 where
  pub scans : ℕ
  pub res_dat : ℕ
  pub zero_data : ℕ

abbrev pub scan_at : Places → ℕ → ℕ
scan_at p s = p.scans + 32 * s

abbrev pub jtag_trans : ℕ → ℕ → ℕ → ℕ → Trans
jtag_trans addr num_bytes type buf = record {
  addr = addr;
  num_bytes = num_bytes;
  acc_mode = 0;
  addr_map = am15;
  type = type;
  buf = buf;
}

-- `numTransMax`
abbrev pub num_trans_max : ℕ → ℕ
num_trans_max num_scan = 16 + 6 * num_scan

-- The variables of the loop over the blocks.
pub record Shift : Type 0 where
  pub trans : List Trans
  pub data_in : ℕ
  pub data_out : ℕ
  pub bits_remaining : ℕ

abbrev pub bits_now : ℕ → ℕ
bits_now bits = if ltb max_bits_trans bits then max_bits_trans else bits

abbrev pub bytes_now : ℕ → ℕ
bytes_now bits = (bits_now bits + 63) / 64 * 8

-- The transactions of one round.
abbrev pub shift_trans : ℕ → ℕ → ℕ → List Trans
shift_trans data_in data_out bits =
    jtag_trans jtag_data_shift (bytes_now bits) tt_wr data_in
    ∷ (if data_out != 0
        then jtag_trans jtag_data_shift (bytes_now bits) tt_rd data_out ∷ []
        else [])

-- One round of the loop; `zero_data` is the pointer to the block for null pointers.
unfoldable pub shift_round : ℕ → Shift → Shift
shift_round zero_data h =
    let full = bits_now h.bits_remaining == max_bits_trans in
    record {
      trans = h.trans ++ shift_trans h.data_in h.data_out h.bits_remaining;
      data_in =
          if full && h.data_in != zero_data
          then u64 (h.data_in + max_bits_trans / 8)
          else h.data_in;
      data_out =
          if full && h.data_out != 0 then u64 (h.data_out + max_bits_trans / 8) else h.data_out;
      bits_remaining = h.bits_remaining - bits_now h.bits_remaining;
    }

-- The loop, with fuel for its rounds: none when it runs out.
unfoldable pub shift_loop : ℕ → ℕ → ℕ → Shift → Option Shift
unfolding shift_round
shift_loop zero max zero_data h = none
shift_loop (suc fuel) max zero_data h =
    let next = shift_round zero_data h in
    let rest = shift_loop fuel max zero_data next in
    if ltb 0 next.bits_remaining && ltb (length next.trans) (max - 6) then rest else some next

-- The transactions of a scan before its data.
unfoldable pub head_trans : Places → ℕ → Scan → List Trans
head_trans p s scan =
    (if scan.tjs == tjs_tap_reset then jtag_trans jtag_reset 4 tt_wr p.res_dat ∷ [] else [])
    ++ ((if ltb 0 scan.ir_width then jtag_trans jtag_set_ir 8 tt_wr (scan_at p s + 4) ∷ [] else [])
        ++ jtag_trans jtag_capture 4 tt_wr (scan_at p s + 12) ∷ [])

-- The pointer to the block for null pointers after `if (scan[s].data_in == nullptr)`.
abbrev pub zero_data_of : Places → Scan → ℕ → ℕ
zero_data_of p scan zero_data =
    if scan.data_in == 0 && zero_data == 0 then p.zero_data else zero_data

abbrev pub start_shift : ℕ → Scan → List Trans → Shift
start_shift zero_data scan ts = record {
  trans = ts;
  data_in = if scan.data_in == 0 then zero_data else scan.data_in;
  data_out = scan.data_out;
  bits_remaining = scan.num_bits;
}

-- Rounds that are enough for the bits of a scan.
abbrev pub shift_fuel : Scan → ℕ
shift_fuel scan = scan.num_bits / max_bits_trans + 1

-- What follows the loop over the blocks: the next scan, or the error.
abbrev pub after_shift :
    (List Trans → Option (TasReturn × List Trans)) → Option Shift → Option (TasReturn × List Trans)
after_shift next none = none
after_shift next (some h) =
    if ltb 0 h.bits_remaining then some (err_fn_param, h.trans) else next h.trans

-- The loop over the scans, from scan `s` on.
unfoldable pub scan_loop :
    Places → ℕ → ℕ → ℕ → List Scan → List Trans → Option (TasReturn × List Trans)
unfolding shift_loop head_trans
scan_loop p max s zero_data [] ts = some (err_none, ts)
scan_loop p max s zero_data (scan ∷ scans) ts =
    let zero_data' = zero_data_of p scan zero_data in
    after_shift (scan_loop p max (s + 1) zero_data' scans) (
      shift_loop (shift_fuel scan) max zero_data'
        (start_shift zero_data' scan (ts ++ head_trans p s scan)))

abbrev pub enable_trans : Places → Trans
enable_trans p = jtag_trans jtag_scan_mode_enable 4 tt_wr p.res_dat

abbrev pub disable_trans : Places → Trans
disable_trans p = jtag_trans jtag_scan_mode_disable 4 tt_wr p.res_dat

abbrev pub with_disable :
    Places → ℕ → Option (TasReturn × List Trans) → Option (TasReturn × List Trans)
with_disable p max none = none
with_disable p max (some (ret, ts)) =
    if ltb max (length ts + 1) then none else some (ret, ts ++ disable_trans p ∷ [])

-- The transactions, and the code that tells whether they are executed; none when the source writes
-- behind its array, of which the places are written one after the other.
unfoldable pub build_trans : Places → List Scan → Option (TasReturn × List Trans)
unfolding scan_loop
build_trans p scans =
    with_disable p (num_trans_max (length scans))
      (scan_loop p (num_trans_max (length scans)) 0 0 scans (enable_trans p ∷ []))

module _ {M : Type 0} (mb_if : MailboxIf M) where
  abbrev pub execute_built :
      Mem ℕ → ClientRw M → Option (TasReturn × List Trans) → Option (Executed M)
  execute_built host k none = none
  execute_built host k (some (ret, ts)) =
      if is_err ret then some (executed ret k host) else execute_trans mb_if host ts k

  unfoldable pub jtag_scan : Places → Mem ℕ → List Scan → ClientRw M → Option (Executed M)
  unfolding build_trans execute_trans
  jtag_scan p host scans k = execute_built host k (build_trans p scans)
