-- ===== src/Prelude/Memory.antt =====
-- A buffer behind a pointer: an index to a value, total as memory is. A read outside of what was
-- written gives whatever stands there.
use Prim.Native.Nat.{ℕ, zero, suc, ◌+◌, ◌≤◌}
use mathlib.Core.Path.{◌≡◌, refl, ap, ap₂}
use mathlib.Core.List.{List, [], ◌∷◌, ◌++◌}
use native.Mathlib.Omega.{arith}
use tas_client_api.Prelude.Tests.{◌==◌, if◌then◌else◌}

abbrev pub Mem {ℓ} : Type ℓ → Type ℓ
Mem A = ℕ → A

module _ {ℓ} {A : Type ℓ} where
  abbrev pub store : Mem A → ℕ → A → Mem A
  store m i v j = if i == j then v else m j

  -- The `n` entries from index `i` on.
  unfoldable pub entries : Mem A → ℕ → ℕ → List A
  entries m i zero = []
  entries m i (suc n) = m i ∷ entries m (i + 1) n

  -- A write past the window leaves it alone.
  pub entries-store :
      (m : Mem A) (i n k : ℕ) (v : A) → i + n ≤ k → entries (store m k v) i n ≡ entries m i n
  unfolding entries
  entries-store m i zero k v h = refl
  entries-store m i (suc n) k v h =
      ap₂ ◌∷◌ (ground arith) (entries-store m (i + 1) n k v (omega arith))

  -- A write just past the window extends it.
  pub entries-snoc :
      (m : Mem A) (i n k : ℕ) (v : A)
      → i + n ≡ k
      → entries (store m k v) i (suc n) ≡ entries m i n ++ v ∷ []
  unfolding entries
  entries-snoc m i zero k v h = ap (λ x. x ∷ []) (ground arith)
  entries-snoc m i (suc n) k v h =
      ap₂ ◌∷◌ (ground arith) (entries-snoc m (i + 1) n k v (omega arith))
