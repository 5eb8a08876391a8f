-- ===== src/Client/Fill.antt =====
-- The transactions that CTasClientRwBase::fill32 makes (src/tas_client/tas_client_rw_base.cpp).
-- `value_at` and `value64_at` are where its variables `value` and `value64` stand in memory.
use tas_client_api.Prelude.{
  ℕ, ◌+◌, ◌-◌, ◌*◌, ◌/◌, ◌%◌, ◌^◌, List, [], ◌∷◌, Mem, ltb, leb, ◌!=◌, if◌then◌else◌, u64, sub32,
  is_within,
}
use tas_client_api.Rw.Trans.{Trans, tt_wr, tt_fill}

abbrev pub wr_trans : ℕ → ℕ → ℕ → Trans
wr_trans addr addr_map buf = record {
  addr = addr;
  num_bytes = 4;
  acc_mode = 0;
  addr_map = addr_map;
  type = tt_wr;
  buf = buf;
}

abbrev pub fill_trans : ℕ → ℕ → ℕ → ℕ → Trans
fill_trans addr num_bytes addr_map buf = record {
  addr = addr;
  num_bytes = num_bytes;
  acc_mode = 0;
  addr_map = addr_map;
  type = tt_fill;
  buf = buf;
}

-- `if (numBytesTr > 0)`
abbrev pub fill_tail : ℕ → ℕ → ℕ → ℕ → List Trans
fill_tail addr num_bytes addr_map value_at =
    if ltb 0 num_bytes then wr_trans addr addr_map value_at ∷ [] else []

-- `if (numBytesTr >= 8)`
abbrev pub fill_body : ℕ → ℕ → ℕ → ℕ → ℕ → List Trans
fill_body addr num_bytes addr_map value_at value64_at =
    let num_bytes64 = num_bytes / 8 * 8 in
    if leb 8 num_bytes
    then fill_trans addr num_bytes64 addr_map value64_at
      ∷ fill_tail (u64 (addr + num_bytes64)) (sub32 num_bytes num_bytes64) addr_map value_at
    else fill_tail addr num_bytes addr_map value_at

-- `if (addr % 8)`
unfoldable pub fill32_trans : ℕ → ℕ → ℕ → ℕ → ℕ → List Trans
fill32_trans addr num_bytes addr_map value_at value64_at =
    if addr % 8 != 0
    then wr_trans addr addr_map value_at
      ∷ fill_body (u64 (addr + 4)) (sub32 num_bytes 4) addr_map value_at value64_at
    else fill_body addr num_bytes addr_map value_at value64_at

-- The two variables in memory, little-endian: `value64` holds `value` twice.
abbrev pub byte_of : ℕ → ℕ → ℕ
byte_of value i = value / 256 ^ i % 256

abbrev pub put_value : Mem ℕ → ℕ → ℕ → ℕ → Mem ℕ
put_value m p size value k = if is_within p size k then byte_of value (k - p) else m k

-- `(((uint64_t)value) << 32) | value`
abbrev pub twice : ℕ → ℕ
twice value = value * 2 ^ 32 + value

unfoldable pub fill32_vars : Mem ℕ → ℕ → ℕ → ℕ → Mem ℕ
fill32_vars host value value_at value64_at =
    put_value (put_value host value_at 4 value) value64_at 8 (twice value)
