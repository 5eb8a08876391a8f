-- ===== src/Prelude/Words.antt =====
-- Machine words: wrap-around at 8, 16, 32 and 64 bits, and the little-endian fields of a packet word.
use Prim.Native.Nat.{ℕ, ◌+◌, ◌-◌, ◌*◌, ◌/◌, ◌%◌, ◌^◌}

abbrev pub u8 : ℕ → ℕ
u8 x = x % 2 ^ 8

abbrev pub u16 : ℕ → ℕ
u16 x = x % 2 ^ 16

abbrev pub u32 : ℕ → ℕ
u32 x = x % 2 ^ 32

abbrev pub u64 : ℕ → ℕ
u64 x = x % 2 ^ 64

-- uint32_t a - b: `-` on ℕ stops at 0, so the modulus comes first.
abbrev pub sub32 : ℕ → ℕ → ℕ
sub32 a b = (a + 2 ^ 32 - b % 2 ^ 32) % 2 ^ 32

-- The four bytes of a word, and its two halves.
abbrev pub byte0 : ℕ → ℕ
byte0 w = w % 256

abbrev pub byte1 : ℕ → ℕ
byte1 w = w / 256 % 256

abbrev pub byte2 : ℕ → ℕ
byte2 w = w / 65536 % 256

abbrev pub byte3 : ℕ → ℕ
byte3 w = w / 16777216 % 256

abbrev pub half0 : ℕ → ℕ
half0 w = w % 65536

abbrev pub half1 : ℕ → ℕ
half1 w = w / 65536 % 65536

-- A word from four bytes, from two bytes and a half, and from two halves.
abbrev pub bytes4 : ℕ → ℕ → ℕ → ℕ → ℕ
bytes4 a b c d = u8 a + 256 * u8 b + 65536 * u8 c + 16777216 * u8 d

abbrev pub bytes2_half : ℕ → ℕ → ℕ → ℕ
bytes2_half a b h = u8 a + 256 * u8 b + 65536 * u16 h

abbrev pub halves2 : ℕ → ℕ → ℕ
halves2 a b = u16 a + 65536 * u16 b
