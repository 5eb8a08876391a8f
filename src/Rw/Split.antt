-- ===== src/Rw/Split.antt =====
-- How an access is cut into PL0 packets: the common part of `rw_add_rd` and `rw_add_wr`
-- (src/tas_client/tas_pkt_handler_rw.cpp), which differ in the packet that they add and in the
-- size of a block. The block loop takes fuel, and `none` means that the fuel ran out.
use tas_client_api.Prelude.{
  ℕ, zero, suc, ◌+◌, ◌*◌, ◌/◌, ◌%◌, Option, none, some, true, ◌&&◌, ltb, leb, ◌==◌, if◌then◌else◌,
  u64, sub32,
}
use tas_client_api.Pkt.Size
use tas_client_api.Rw.State.{Rw, pkt_finalize}

-- The locals `a`, `nb` and `d`, with the object.
pub record Cursor : Type 0 where
  pub rw : Rw
  pub a : ℕ
  pub nb : ℕ
  pub d : ℕ

-- The steps that the two functions share: `add` is `mPktAdd_Rd` or `mPktAdd_Wr`, and `blk_size` the
-- size of the next block.
pub record Steps : Type 0 where
  pub add : Rw → ℕ → ℕ → ℕ → Rw
  pub blk_size : Rw → ℕ → ℕ → ℕ

-- `a += k; d += k; nb -= k;`
abbrev pub advance : ℕ → Cursor → Cursor
advance k c = record c { a = u64 (c.a + k); nb = sub32 c.nb k; d = u64 (c.d + k) }

-- Add a packet of `k` bytes at the cursor, and step past it.
unfoldable pub take_bytes : Steps → ℕ → Cursor → Cursor
take_bytes s k c = advance k (record c { rw = s.add c.rw c.a k c.d })

-- `if ((nb >= k) && (a & k))`
unfoldable pub align_step : Steps → ℕ → Cursor → Cursor
unfolding take_bytes
align_step s k c = if leb k c.nb && c.a / k % 2 == 1 then take_bytes s k c else c

-- `if (nb >= k)`
unfoldable pub tail_step : Steps → ℕ → Cursor → Cursor
unfolding take_bytes
tail_step s k c = if leb k c.nb then take_bytes s k c else c

-- A round of the block loop with a block of `n` bytes.
unfoldable pub blk_round : Steps → ℕ → Cursor → Cursor
blk_round s n c =
    let added = s.add c.rw c.a n c.d in
    advance n (record c {
      rw =
          if ltb n Size.pl0_data_blk_size && ltb n (c.nb / 8 * 8)
          then pkt_finalize true added
          else added;
    })

unfoldable pub blk_step : Steps → Cursor → Cursor
blk_step s c = blk_round s (s.blk_size c.rw c.nb c.a) c

-- `do { … } while (nb > 7);`
unfoldable pub blk_loop : Steps → ℕ → Cursor → Option Cursor
blk_loop s zero c = none
blk_loop s (suc fuel) c =
    let c' = blk_step s c in let rest = blk_loop s fuel c' in if ltb 7 c'.nb then rest else some c'

-- `if (nb >= 8) do { … } while (nb > 7);`
unfoldable pub blk_part : Steps → ℕ → Cursor → Option Cursor
unfolding blk_loop
blk_part s fuel c = if leb 8 c.nb then blk_loop s fuel c else some c

unfoldable pub head_part : Steps → Cursor → Cursor
head_part s c = align_step s 4 (align_step s 2 (align_step s 1 c))

unfoldable pub tail_part : Steps → Cursor → Cursor
tail_part s c = tail_step s 1 (tail_step s 2 (tail_step s 4 c))

abbrev pub tails : Steps → Option Cursor → Option Cursor
tails s none = none
tails s (some c) = some (tail_part s c)

unfoldable pub split : Steps → ℕ → Cursor → Option Cursor
split s fuel c = tails s (blk_part s fuel (head_part s c))
