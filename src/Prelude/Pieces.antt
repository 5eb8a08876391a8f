-- ===== src/Prelude/Pieces.antt =====
-- Pieces of lists and of buffers: the first bytes of a list, the bytes of a buffer of words, words
-- that are copied or cleared, and characters of a C string.
use Prim.Native.Nat.{ℕ, zero, suc, ◌+◌, ◌-◌, ◌*◌, ◌/◌, ◌<◌, ◌≤◌}
use mathlib.Core.Path.{◌≡◌, refl, ap}
use mathlib.Core.Logic.{◌⊎◌}
use native.Mathlib.Omega.{arith}
use mathlib.Core.Bool.{Bool, true, false, ◌&&◌}
use mathlib.Core.List.{List, [], ◌∷◌}
use tas_client_api.Prelude.Tests.{ltb, leb, if◌then◌else◌}
use tas_client_api.Prelude.Memory.{Mem}
use tas_client_api.Prelude.Lists.{get_or}
use tas_client_api.Prelude.Bytes.{get_byte, store_byte}
use tas_client_api.Prelude.Words.{bytes4}

unfoldable pub take {ℓ} : {A : Type ℓ} → ℕ → List A → List A
take zero xs = []
take (suc n) [] = []
take (suc n) (x ∷ xs) = x ∷ take n xs

-- The `n` bytes of the words `m` from byte offset `i` on.
unfoldable pub get_bytes : Mem ℕ → ℕ → ℕ → List ℕ
get_bytes m i zero = []
get_bytes m i (suc n) = get_byte m i ∷ get_bytes m (i + 1) n

-- The bytes are written to the words `m` from byte offset `i` on.
unfoldable pub put_bytes : List ℕ → Mem ℕ → ℕ → Mem ℕ
put_bytes [] m i = m
put_bytes (b ∷ bs) m i = put_bytes bs (store_byte m i b) (i + 1)

abbrev pub is_within : ℕ → ℕ → ℕ → Bool
is_within i n j = leb i j && ltb j (i + n)

-- `memcpy` of `n` words from `src` at `i` to `dst` at `j`.
abbrev pub copy_words : Mem ℕ → ℕ → ℕ → Mem ℕ → ℕ → Mem ℕ
copy_words src i n dst j k = if is_within j n k then src (i + (k - j)) else dst k

-- `n` words from `i` on become 0.
abbrev pub clear_words : Mem ℕ → ℕ → ℕ → Mem ℕ
clear_words m i n k = if is_within i n k then 0 else m k

-- Character `i` of what `snprintf(dst, size, "%s", s)` writes, where `dst` is cleared.
abbrev pub char_at : List ℕ → ℕ → ℕ → ℕ
char_at s size i = if ltb i (size - 1) then get_or s i 0 else 0

-- `snprintf(dst, size, "%s", s)` to a cleared field of `size` bytes at word `i`.
abbrev pub put_string : List ℕ → ℕ → Mem ℕ → ℕ → Mem ℕ
put_string s size m i k =
    if is_within i (size / 4) k
    then bytes4 (char_at s size (4 * (k - i))) (char_at s size (4 * (k - i) + 1))
        (char_at s size (4 * (k - i) + 2)) (char_at s size (4 * (k - i) + 3))
    else m k

pub copy_words-here :
    (src : Mem ℕ) (i n : ℕ) (dst : Mem ℕ) (j k : ℕ)
    → k < n
    → copy_words src i n dst j (j + k) ≡ src (i + k)
copy_words-here src i n dst j k h =
    let inside : is_within j n (j + k) ≡ true = ground arith in
    rw inside (ap (λ l. src (i + l)) (omega arith))

pub copy_words-elsewhere :
    (src : Mem ℕ) (i n : ℕ) (dst : Mem ℕ) (j k : ℕ)
    → (k < j) ⊎ (j + n ≤ k)
    → copy_words src i n dst j k ≡ dst k
copy_words-elsewhere src i n dst j k h =
    let outside : is_within j n k ≡ false = ground arith in rw outside refl
