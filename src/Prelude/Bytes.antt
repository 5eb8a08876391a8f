-- ===== src/Prelude/Bytes.antt =====
-- `memcpy` from the caller's bytes into a buffer of words, and back; words are little-endian.
use Prim.Native.Nat.{ℕ, zero, suc, ◌+◌, ◌-◌, ◌*◌, ◌/◌, ◌%◌, ◌^◌}
use tas_client_api.Prelude.Memory.{Mem, store}

abbrev pub get_byte : Mem ℕ → ℕ → ℕ
get_byte m i = m (i / 4) / 256 ^ (i % 4) % 256

abbrev pub store_byte : Mem ℕ → ℕ → ℕ → Mem ℕ
store_byte m i v =
    store m (i / 4) (m (i / 4) - get_byte m i * 256 ^ (i % 4) + v % 256 * 256 ^ (i % 4))

-- The `n` bytes at `src` of byte memory `host` go to byte offset `i` of the words `m`.
unfoldable pub memcpy_to_words : Mem ℕ → ℕ → ℕ → Mem ℕ → ℕ → Mem ℕ
memcpy_to_words host src zero m i = m
memcpy_to_words host src (suc n) m i =
    memcpy_to_words host (src + 1) n (store_byte m i (host src)) (i + 1)

-- The `n` bytes from byte offset `i` of the words `m` go to `dst` of byte memory `host`.
unfoldable pub memcpy_from_words : Mem ℕ → ℕ → ℕ → Mem ℕ → ℕ → Mem ℕ
memcpy_from_words m i zero host dst = host
memcpy_from_words m i (suc n) host dst =
    memcpy_from_words m (i + 1) n (store host dst (get_byte m i)) (dst + 1)
