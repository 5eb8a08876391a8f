-- ===== src/Client/Filling.antt =====
-- The whole of CTasClientRwBase::fill32 (src/tas_client/tas_client_rw_base.cpp).
use tas_client_api.Prelude.{
  ℕ, ◌+◌, ◌-◌, ◌*◌, ◌/◌, ◌%◌, ◌^◌, ◌≤◌, ◌<◌, ◌≡◌, refl, ap, ◌∙◌, ◌⊎◌, inl, inr, arith, true, false,
  List, [], ◌∷◌, Mem, ltb, leb, ◌!=◌, if◌then◌else◌, if-lem, Bool-cases, u64, sub32, is_within,
}
use tas_client_api.Rw.Trans.{Trans}
use tas_client_api.Client.Fill.{
  wr_trans, fill_trans, fill_tail, fill_body, fill32_trans, byte_of, fill32_vars,
}
use tas_client_api.Client.Filled.{apply, apply_all, filled, IsPart, wr-IsPart, fill-IsPart}

-- What a list of transactions does: the `n` bytes from `addr` on get those of the value, for the
-- access that begins at `base`.
abbrev Fills : Mem ℕ → ℕ → ℕ → ℕ → ℕ → List Trans → Type 0
Fills host value base addr n ts =
    (mem : Mem ℕ) (a : ℕ)
    → apply_all host ts mem a
      ≡ (if is_within addr n a then byte_of value ((a - base) % 4) else mem a)

none-Fills : (host : Mem ℕ) (value base addr n : ℕ) → n ≡ 0 → Fills host value base addr n []
none-Fills host value base addr n e =
    λ mem. λ a. let outside : is_within addr n a ≡ false = ground arith in rw outside refl

join-Fills :
    (host : Mem ℕ) (value base addr n addr' n' m : ℕ) (t : Trans) (ts : List Trans)
    → IsPart host value base addr n t
    → Fills host value base addr' n' ts
    → addr' ≡ addr + n
    → m ≡ n + n'
    → Fills host value base addr m (t ∷ ts)
join-Fills host value base addr n addr' n' m t ts part rest e f = λ mem. λ a.
    elim (Bool-cases (is_within addr' n' a)) [
      | inl later ↦
          let inside : is_within addr m a ≡ true = ground arith in
          rest (apply host t mem) a ∙ rw (later, inside) refl
      | inr before ↦ elim (Bool-cases (is_within addr n a)) [
        | inl here ↦
            let inside : is_within addr m a ≡ true = ground arith in
            rest (apply host t mem) a
            ∙ ap (λ b. if b then byte_of value ((a - base) % 4) else apply host t mem a) before
            ∙ part mem a
            ∙ rw (here, inside) refl
        | inr outside ↦
            let out : is_within addr m a ≡ false = ground arith in
            rest (apply host t mem) a
            ∙ ap (λ b. if b then byte_of value ((a - base) % 4) else apply host t mem a) before
            ∙ part mem a
            ∙ rw (outside, out) refl
      ]
    ]

module _ (host : Mem ℕ) (value p q base addr_map : ℕ) (small : value < 2 ^ 32)
    (apart : (p + 4 ≤ q) ⊎ (q + 8 ≤ p)) where
  tail-Fills :
      (addr n : ℕ)
      → (n ≡ 0) ⊎ (n ≡ 4)
      → base ≤ addr
      → (addr - base) % 4 ≡ 0
      → Fills (fill32_vars host value p q) value base addr n (fill_tail addr n addr_map p)
  tail-Fills addr n size le aligned =
      if-lem (Fills (fill32_vars host value p q) value base addr n) (ltb 0 n)
        (λ h.
          join-Fills (fill32_vars host value p q) value base addr 4 (addr + 4) 0 n
            (wr_trans addr addr_map p) []
            (wr-IsPart host value p q base addr addr_map apart le aligned)
            (none-Fills (fill32_vars host value p q) value base (addr + 4) 0 refl) refl
            (ground arith))
        (λ h. none-Fills (fill32_vars host value p q) value base addr n (ground arith))

  body-Fills :
      (addr n : ℕ)
      → n % 4 ≡ 0
      → n < 2 ^ 32
      → addr + n < 2 ^ 64
      → base ≤ addr
      → (addr - base) % 4 ≡ 0
      → Fills (fill32_vars host value p q) value base addr n (fill_body addr n addr_map p q)
  body-Fills addr n words size no_wrap le aligned =
      if-lem (Fills (fill32_vars host value p q) value base addr n) (leb 8 n)
        (λ h.
          let there : u64 (addr + n / 8 * 8) ≡ addr + n / 8 * 8 = omega arith in
          join-Fills (fill32_vars host value p q) value base addr (n / 8 * 8)
            (u64 (addr + n / 8 * 8)) (sub32 n (n / 8 * 8)) n
            (fill_trans addr (n / 8 * 8) addr_map q)
            (fill_tail (u64 (addr + n / 8 * 8)) (sub32 n (n / 8 * 8)) addr_map p)
            (fill-IsPart host value p q base addr (n / 8 * 8) addr_map small le aligned)
            (tail-Fills (u64 (addr + n / 8 * 8)) (sub32 n (n / 8 * 8)) (ground arith) (omega arith)
              (omega arith))
            there (omega arith))
        (λ h. tail-Fills addr n (ground arith) le aligned)

-- For an address and a positive number of bytes that are multiples of 4, where the access ends below
-- 2^64, and a 32 bit value, with the two variables apart in memory, in either order: the transactions
-- that `fill32` makes of it, at most a write, a fill and a write, leave the target's memory filled with the value, from the address on and for that number of bytes, with
-- the bytes of the value in their order, and all other bytes of the target as they were.
pub fill32-filled :
    (host mem : Mem ℕ) (addr value num_bytes addr_map value_at value64_at a : ℕ)
    → addr % 4 ≡ 0
    → 0 < num_bytes
    → num_bytes % 4 ≡ 0
    → num_bytes < 2 ^ 32
    → addr + num_bytes < 2 ^ 64
    → value < 2 ^ 32
    → (value_at + 4 ≤ value64_at) ⊎ (value64_at + 8 ≤ value_at)
    → apply_all
        (fill32_vars host value value_at value64_at)
        (fill32_trans addr num_bytes addr_map value_at value64_at)
        mem
        a
      ≡ filled addr value num_bytes mem a
unfolding fill32_trans
fill32-filled host mem addr value num_bytes addr_map p q a aligned pos words size no_wrap small
      apart =
    if-lem (Fills (fill32_vars host value p q) value addr addr num_bytes) (addr % 8 != 0)
      (λ h.
        let there : u64 (addr + 4) ≡ addr + 4 = omega arith in
        let left : sub32 num_bytes 4 ≡ num_bytes - 4 = omega arith in
        join-Fills (fill32_vars host value p q) value addr addr 4 (u64 (addr + 4))
          (sub32 num_bytes 4) num_bytes (wr_trans addr addr_map p)
          (fill_body (u64 (addr + 4)) (sub32 num_bytes 4) addr_map p q)
          (wr-IsPart host value p q addr addr addr_map apart (omega arith) (omega arith))
          (body-Fills host value p q addr addr_map small apart (u64 (addr + 4)) (sub32 num_bytes 4)
            (omega arith) (omega arith) (omega arith) (omega arith) (omega arith))
          there (omega arith))
      (λ h.
        body-Fills host value p q addr addr_map small apart addr num_bytes words size no_wrap
          (omega arith) (omega arith))
      mem a
