-- ===== src/Prelude/Copying.antt =====
-- What `memcpy` into a buffer of words leaves: the bytes copied, and all others as they were.
use Prim.Native.Nat.{ℕ, zero, suc, ◌+◌, ◌-◌, ◌*◌, ◌/◌, ◌%◌, ◌^◌, ◌<◌}
use mathlib.Core.Path.{◌≡◌, refl, ap, ◌∙◌, sym, subst}
use mathlib.Core.Bool.{true, false}
use mathlib.Core.Logic.{◌≢◌, ◌⊎◌, inl, inr}
use native.Mathlib.Omega.{arith}
use native.Mathlib.Decide.{ℕ_discrete}
use tas_client_api.Prelude.Tests.{◌==◌}
use tas_client_api.Prelude.Memory.{Mem}
use tas_client_api.Prelude.Bytes.{get_byte, store_byte, memcpy_to_words}

-- The place of a byte in its word is one of four.
place-cases : (i : ℕ) → (i % 4 ≡ 0) ⊎ (i % 4 ≡ 1) ⊎ (i % 4 ≡ 2) ⊎ (i % 4 ≡ 3)
place-cases i = elim (ℕ_discrete (i % 4) 0) [
  | yes e ↦ inl e
  | no n0 ↦ elim (ℕ_discrete (i % 4) 1) [
    | yes e ↦ inr (inl e)
    | no n1 ↦ elim (ℕ_discrete (i % 4) 2) [
      | yes e ↦ inr (inr (inl e))
      | no n2 ↦ inr (inr (inr (omega arith)))
    ]
  ]
]

-- The byte that is stored.
patch-here :
    (w v k : ℕ)
    → (k ≡ 0) ⊎ (k ≡ 1) ⊎ (k ≡ 2) ⊎ (k ≡ 3)
    → (w - w / 256 ^ k % 256 * 256 ^ k + v % 256 * 256 ^ k) / 256 ^ k % 256 ≡ v % 256
patch-here w v k (inl e) = rw e (omega arith)
patch-here w v k (inr (inl e)) = rw e (omega arith)
patch-here w v k (inr (inr (inl e))) = rw e (omega arith)
patch-here w v k (inr (inr (inr e))) = rw e (omega arith)

-- The other bytes of the word.
patch-other :
    (w v k l : ℕ)
    → (k ≡ 0) ⊎ (k ≡ 1) ⊎ (k ≡ 2) ⊎ (k ≡ 3)
    → (l ≡ 0) ⊎ (l ≡ 1) ⊎ (l ≡ 2) ⊎ (l ≡ 3)
    → k ≢ l
    → (w - w / 256 ^ k % 256 * 256 ^ k + v % 256 * 256 ^ k) / 256 ^ l % 256 ≡ w / 256 ^ l % 256
patch-other w v k l (inl e) (inl f) ne = absurd (omega arith)
patch-other w v k l (inl e) (inr (inl f)) ne = rw (e, f) (omega arith)
patch-other w v k l (inl e) (inr (inr (inl f))) ne = rw (e, f) (omega arith)
patch-other w v k l (inl e) (inr (inr (inr f))) ne = rw (e, f) (omega arith)
patch-other w v k l (inr (inl e)) (inl f) ne = rw (e, f) (omega arith)
patch-other w v k l (inr (inl e)) (inr (inl f)) ne = absurd (omega arith)
patch-other w v k l (inr (inl e)) (inr (inr (inl f))) ne = rw (e, f) (omega arith)
patch-other w v k l (inr (inl e)) (inr (inr (inr f))) ne = rw (e, f) (omega arith)
patch-other w v k l (inr (inr (inl e))) (inl f) ne = rw (e, f) (omega arith)
patch-other w v k l (inr (inr (inl e))) (inr (inl f)) ne = rw (e, f) (omega arith)
patch-other w v k l (inr (inr (inl e))) (inr (inr (inl f))) ne = absurd (omega arith)
patch-other w v k l (inr (inr (inl e))) (inr (inr (inr f))) ne = rw (e, f) (omega arith)
patch-other w v k l (inr (inr (inr e))) (inl f) ne = rw (e, f) (omega arith)
patch-other w v k l (inr (inr (inr e))) (inr (inl f)) ne = rw (e, f) (omega arith)
patch-other w v k l (inr (inr (inr e))) (inr (inr (inl f))) ne = rw (e, f) (omega arith)
patch-other w v k l (inr (inr (inr e))) (inr (inr (inr f))) ne = absurd (omega arith)

pub get_byte-store_byte : (m : Mem ℕ) (i v : ℕ) → get_byte (store_byte m i v) i ≡ v % 256
get_byte-store_byte m i v =
    let here : (i / 4 == i / 4) ≡ true = ground arith in
    rw here (patch-here (m (i / 4)) v (i % 4) (place-cases i))

pub get_byte-other : (m : Mem ℕ) (i j v : ℕ) → i ≢ j → get_byte (store_byte m i v) j ≡ get_byte m j
get_byte-other m i j v ne = elim (ℕ_discrete (i / 4) (j / 4)) [
  | yes e ↦
      let here : (i / 4 == j / 4) ≡ true = ground arith in
      rw (here) (
        patch-other (m (i / 4)) v (i % 4) (j % 4) (place-cases i) (place-cases j) (omega arith)
        ∙ ap (λ w. m w / 256 ^ (j % 4) % 256) e)
  | no n ↦ let other : (i / 4 == j / 4) ≡ false = ground arith in rw other refl
]

-- Bytes below the copy stay.
pub memcpy-below :
    (host : Mem ℕ) (src n : ℕ) (m : Mem ℕ) (i j : ℕ)
    → j < i
    → get_byte (memcpy_to_words host src n m i) j ≡ get_byte m j
unfolding memcpy_to_words
memcpy-below host src zero m i j h = refl
memcpy-below host src (suc n) m i j h =
    memcpy-below host (src + 1) n (store_byte m i (host src)) (i + 1) j (omega arith)
    ∙ get_byte-other m i j (host src) (omega arith)

-- The bytes of the copy are those of the source.
pub memcpy-copies :
    (host : Mem ℕ) (src n : ℕ) (m : Mem ℕ) (i k : ℕ)
    → k < n
    → get_byte (memcpy_to_words host src n m i) (i + k) ≡ host (src + k) % 256
unfolding memcpy_to_words
memcpy-copies host src zero m i k h = absurd (omega arith)
memcpy-copies host src (suc n) m i zero h =
    memcpy-below host (src + 1) n (store_byte m i (host src)) (i + 1) (i + 0) (omega arith)
    ∙ ap (get_byte (store_byte m i (host src))) (omega arith)
    ∙ get_byte-store_byte m i (host src)
    ∙ ap (λ p. host p % 256) (omega arith)
memcpy-copies host src (suc n) m i (suc k) h =
    ap (get_byte (memcpy_to_words host (src + 1) n (store_byte m i (host src)) (i + 1)))
      (omega arith)
    ∙ memcpy-copies host (src + 1) n (store_byte m i (host src)) (i + 1) k (omega arith)
    ∙ ap (λ p. host p % 256) (omega arith)

patch-word :
    (w v k : ℕ)
    → (k ≡ 0) ⊎ (k ≡ 1) ⊎ (k ≡ 2) ⊎ (k ≡ 3)
    → w < 2 ^ 32
    → w - w / 256 ^ k % 256 * 256 ^ k + v % 256 * 256 ^ k < 2 ^ 32
patch-word w v k (inl e) h = rw e (omega arith)
patch-word w v k (inr (inl e)) h = rw e (omega arith)
patch-word w v k (inr (inr (inl e))) h = rw e (omega arith)
patch-word w v k (inr (inr (inr e))) h = rw e (omega arith)

-- A word stays below 2^32 when a byte is written.
pub store_byte-word : (m : Mem ℕ) (i v k : ℕ) → m k < 2 ^ 32 → store_byte m i v k < 2 ^ 32
store_byte-word m i v k h = elim (ℕ_discrete (i / 4) k) [
  | yes e ↦
      let here : (i / 4 == k) ≡ true = ground arith in
      let small : m (i / 4) < 2 ^ 32 = subst (λ j. m j < 2 ^ 32) (sym e) h in
      rw here (patch-word (m (i / 4)) v (i % 4) (place-cases i) small)
  | no n ↦ let other : (i / 4 == k) ≡ false = ground arith in rw other h
]

-- Words below the copy stay.
pub memcpy-words_below :
    (host : Mem ℕ) (src n : ℕ) (m : Mem ℕ) (i w : ℕ)
    → w < i / 4
    → memcpy_to_words host src n m i w ≡ m w
unfolding memcpy_to_words
memcpy-words_below host src zero m i w h = refl
memcpy-words_below host src (suc n) m i w h =
    let other : (i / 4 == w) ≡ false = ground arith in
    memcpy-words_below host (src + 1) n (store_byte m i (host src)) (i + 1) w (omega arith)
    ∙ rw other refl
