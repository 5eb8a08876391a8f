-- ===== src/Rw/Tiling.antt =====
-- What it means that PL0 transactions make up an access: they follow one another without gap or
-- overlap, and each has a size and an alignment that a PL0 command exists for.
use tas_client_api.Prelude.{ℕ, ◌+◌, ◌-◌, ◌%◌, ◌≤◌, ◌≡◌, subst, ◌⊎◌, List, [], ◌∷◌, ◌++◌, arith}
use tas_client_api.Rw.Trans.{Trans}
use tas_client_api.Rw.Laws.{trans}

-- A PL0 command exists for `n` bytes at `a`: one of 1, 2, 4 or 8 aligned bytes, or a block of whole
-- 64 bit words of at most 1 KB.
abbrev pub IsLegal : ℕ → ℕ → Type 0
IsLegal a n =
    (n ≡ 1)
    ⊎ ((n ≡ 2) × (a % 2 ≡ 0))
    ⊎ ((n ≡ 4) × (a % 4 ≡ 0))
    ⊎ ((8 ≤ n) × (n ≤ 1024) × (n % 8 ≡ 0) × (a % 8 ≡ 0))

-- The transactions `ts` of access mode `am`, map `m` and type `type` make up `n` bytes from target
-- address `a` on, and the same bytes from buffer address `d` on.
module _ (am m type : ℕ) where
  abbrev pub Tiled : List Trans → ℕ → ℕ → ℕ → Type 0
  Tiled [] a d n = n ≡ 0
  Tiled (t ∷ ts) a d n =
      (t ≡ trans a t.num_bytes am m type d)
      × IsLegal a t.num_bytes
      × (t.num_bytes ≤ n)
      × Tiled ts (a + t.num_bytes) (d + t.num_bytes) (n - t.num_bytes)

  -- One more transaction at the end.
  pub Tiled-snoc :
      (ts : List Trans) (a d n p q k : ℕ)
      → Tiled ts a d n
      → a + n ≡ p
      → d + n ≡ q
      → IsLegal p k
      → Tiled (ts ++ trans p k am m type q ∷ []) a d (n + k)
  Tiled-snoc [] a d n p q k h e f l = (
    start (omega arith) (omega arith),
    subst (λ x. IsLegal x k) (omega arith) l,
    omega arith,
    omega arith,
  )
    where
      start : a ≡ p → d ≡ q → trans p k am m type q ≡ trans a k am m type d
      start e f = cc
  Tiled-snoc (t ∷ ts) a d n p q k h e f l = (
    h.0,
    h.1,
    omega arith,
    subst (Tiled _ (a + t.num_bytes) (d + t.num_bytes)) (omega arith) (
        Tiled-snoc ts (a + t.num_bytes) (d + t.num_bytes) (n - t.num_bytes) p q k h.3 (omega arith)
          (omega arith) l),
  )
