-- ===== src/Utils/Hash.antt =====
-- `tasutil_crc32` (src/tas_client/tas_utils.h) and `tasutil_hash32_to_str`
-- (src/tas_client/tas_utils.cpp).
use tas_client_api.Prelude.{
  ℕ, zero, suc, ◌-◌, ◌/◌, ◌%◌, List, [], ◌∷◌, get_or, bit_and, bit_xor, byte0, byte1, byte2, byte3,
}

-- `crcTable`
abbrev crc_table : List ℕ
crc_table =
    0x4DBDF21C ∷ 0x500AE278 ∷ 0x76D3D2D4 ∷ 0x6B64C2B0 ∷ 0x3B61B38C ∷ 0x26D6A3E8 ∷ 0x000F9344
    ∷ 0x1DB88320 ∷ 0xA005713C ∷ 0xBDB26158 ∷ 0x9B6B51F4 ∷ 0x86DC4190 ∷ 0xD6D930AC ∷ 0xCB6E20C8
    ∷ 0xEDB71064 ∷ 0xF0000000 ∷ []

abbrev crc_nibble : ℕ → ℕ → ℕ
crc_nibble crc x = bit_xor (crc / 16) (get_or crc_table (bit_and (bit_xor crc x) 0x0F) 0)

unfoldable pub crc_byte : ℕ → ℕ → ℕ
crc_byte crc x = let crc1 = crc_nibble crc x in crc_nibble crc1 (x / 16)

abbrev crc_word : ℕ → ℕ → ℕ
crc_word crc w =
    crc_byte (crc_byte (crc_byte (crc_byte crc (byte0 w)) (byte1 w)) (byte2 w)) (byte3 w)

unfoldable pub crc_words : ℕ → List ℕ → ℕ
unfolding crc_byte
crc_words crc [] = crc
crc_words crc (w ∷ ws) = crc_words (crc_word crc w) ws

-- `tasutil_crc32` of whole words
unfoldable pub crc32 : List ℕ → ℕ
unfolding crc_words
crc32 words = crc_words 0 words

-- The character codes of "ABCDEFGHJKLMNPQRTUVWXYZ012346789".
abbrev pub ascii_map : List ℕ
ascii_map =
    65 ∷ 66 ∷ 67 ∷ 68 ∷ 69 ∷ 70 ∷ 71 ∷ 72 ∷ 74 ∷ 75 ∷ 76 ∷ 77 ∷ 78 ∷ 80 ∷ 81 ∷ 82 ∷ 84 ∷ 85 ∷ 86
    ∷ 87 ∷ 88 ∷ 89 ∷ 90 ∷ 48 ∷ 49 ∷ 50 ∷ 51 ∷ 52 ∷ 54 ∷ 55 ∷ 56 ∷ 57 ∷ []

abbrev pub ascii : ℕ → ℕ
ascii i = get_or ascii_map i 0

-- The loop over the characters from `i` down to 1, in front of what is done.
unfoldable pub hash_loop : ℕ → ℕ → List ℕ → List ℕ
hash_loop zero value done = ascii (value % (32 - 10)) ∷ done
hash_loop (suc i) value done = hash_loop i (value / 32) (ascii (value % 32) ∷ done)

-- `tasutil_hash32_to_str`: the characters up to the terminating zero.
unfoldable pub hash32_to_str : ℕ → List ℕ
unfolding hash_loop
hash32_to_str hash32 = hash_loop 5 hash32 []
