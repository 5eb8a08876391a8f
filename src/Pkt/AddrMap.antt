-- ===== src/Pkt/AddrMap.antt =====
-- src/tas_client/tas_am15_am14.h: the address maps and the masks of the shared and exclusive ones.
use tas_client_api.Prelude.{ℕ}

abbrev pub am0 : ℕ
am0 = 0

abbrev pub am1 : ℕ
am1 = 1

abbrev pub am12 : ℕ
am12 = 12

abbrev pub am15 : ℕ
am15 = 15

abbrev pub am132 : ℕ
am132 = 132

abbrev pub mask_exclusive : ℕ
mask_exclusive = 0xf000

abbrev pub mask_shared : ℕ
mask_shared = 0x0fff
