-- ===== src/Jtag/Shifting.antt =====
-- What the loop over the blocks of one scan makes (src/tas_client/tas_utils_jtag.cpp).
use tas_client_api.Prelude.{
  ℕ, zero, suc, ◌+◌, ◌-◌, ◌*◌, ◌≤◌, ◌<◌, ◌≡◌, ◌⊎◌, inl, inr, refl, ap, ap₂, sym, ◌∙◌, true, false,
  ◌&&◌, Option, some, List, ◌++◌, append_assoc, append-nil, arith, ltb, ◌==◌, if◌then◌else◌, length,
  length-append, Bool-cases, ltb→lt, subst,
}
use tas_client_api.Rw.Trans.{Trans}
use tas_client_api.Jtag.Scan.{
  Scan, Shift, shift_round, shift_loop, shift_trans, max_bits_trans, bits_now,
}
use tas_client_api.Jtag.Plan.{num_blocks, in_at, out_at, blocks, IsApart}

-- Either all bits are shifted, and the transactions are `ts`; or some remain, and `ts` and five more
-- do not fit into `max`.
abbrev pub IsRound : ℕ → List Trans → Shift → Type 0
IsRound max ts g =
    ((g.bits_remaining ≡ 0) × (g.trans ≡ ts)) ⊎ ((0 < g.bits_remaining) × (max < length ts + 6))

abbrev pub IsShifted : ℕ → List Trans → Option Shift → Type 0
IsShifted max ts o = (g : Shift) × (o ≡ some g) × IsRound max ts g

module _ (z max : ℕ) (scan : Scan) (apart : IsApart z scan) where
  -- The variables before block `i`.
  pub record At (i : ℕ) (h : Shift) : Type 0 where
    pub data_in : h.data_in ≡ in_at z scan i
    pub data_out : h.data_out ≡ out_at scan i
    pub bits : h.bits_remaining ≡ scan.num_bits - max_bits_trans * i

  -- A round that is not the last.
  shift_round-At :
      (i k : ℕ) (h : Shift)
      → i + suc (suc k) ≡ num_blocks scan.num_bits
      → At i h
      → At (i + 1) (shift_round z h)
  unfolding shift_round
  shift_round-At i k h e a =
      let more : ltb max_bits_trans h.bits_remaining ≡ true = ground (arith, a.bits) in
      let full : (bits_now h.bits_remaining == max_bits_trans) ≡ true = rw more refl in
      record {
        data_in = rw full (ground (arith, a.data_in, apart.in_fits, apart.apart));
        data_out = rw full (ground (arith, a.data_out, apart.out_fits));
        bits = rw more (ground (arith, a.bits));
      }

  -- The last one.
  shift_round-ends :
      (i : ℕ) (h : Shift)
      → i + 1 ≡ num_blocks scan.num_bits
      → At i h
      → (shift_round z h).bits_remaining ≡ 0
  unfolding shift_round
  shift_round-ends i h e a = ground (arith, a.bits)

  shift_round-trans :
      (i : ℕ) (h : Shift)
      → At i h
      → (shift_round z h).trans
        ≡ h.trans
          ++ shift_trans (in_at z scan i) (out_at scan i) (scan.num_bits - max_bits_trans * i)
  unfolding shift_round
  shift_round-trans i h a = rw (← a.data_in) (rw (← a.data_out) (rw (← a.bits) refl))

  -- A round before block `i`, and the rest of the blocks behind it.
  next-blocks :
      (i k : ℕ) (h : Shift)
      → At i h
      → (shift_round z h).trans ++ blocks z scan (i + 1) k ≡ h.trans ++ blocks z scan i (suc k)
  next-blocks i k h a =
      ap (λ ts. ts ++ blocks z scan (i + 1) k) (shift_round-trans i h a) ∙ append_assoc h.trans _ _

  shift_round-remains :
      (i k : ℕ) (h : Shift)
      → i + suc (suc k) ≡ num_blocks scan.num_bits
      → At i h
      → ltb 0 (shift_round z h).bits_remaining ≡ true
  shift_round-remains i k h e a = ground (arith, (shift_round-At i k h e a).bits)

  -- The two ways on from a round that leaves bits.
  loop_goes :
      (fuel : ℕ) (h : Shift)
      → ltb 0 (shift_round z h).bits_remaining ≡ true
      → ltb (length (shift_round z h).trans) (max - 6) ≡ true
      → shift_loop fuel max z (shift_round z h) ≡ shift_loop (suc fuel) max z h
  unfolding shift_loop
  loop_goes fuel h left room = sym (
      ap₂
        (λ b c. if b && c then shift_loop fuel max z (shift_round z h) else some (shift_round z h))
        left room)

  loop_stops :
      (fuel : ℕ) (h : Shift)
      → ltb 0 (shift_round z h).bits_remaining ≡ true
      → ltb (length (shift_round z h).trans) (max - 6) ≡ false
      → shift_loop (suc fuel) max z h ≡ some (shift_round z h)
  unfolding shift_loop
  loop_stops fuel h left full =
      ap₂
        (λ b c. if b && c then shift_loop fuel max z (shift_round z h) else some (shift_round z h))
        left full

  loop_ends :
      (fuel : ℕ) (h : Shift)
      → (shift_round z h).bits_remaining ≡ 0
      → shift_loop (suc fuel) max z h ≡ some (shift_round z h)
  unfolding shift_loop
  loop_ends fuel h none_left = rw none_left refl

  length-next-blocks :
      (i k : ℕ) (h : Shift)
      → At i h
      → length (shift_round z h).trans < length (h.trans ++ blocks z scan i (suc (suc k)))
  length-next-blocks i k h a = omega (
    arith,
    ap length (next-blocks i (suc k) h a),
    length-append (shift_round z h).trans (blocks z scan (i + 1) (suc k)),
  )

  -- Enough fuel shifts the `k` blocks from block `i` on, unless there is no room.
  pub shift_loop-IsShifted :
      (fuel i k : ℕ) (h : Shift)
      → suc k ≤ fuel
      → i + suc k ≡ num_blocks scan.num_bits
      → At i h
      → IsShifted max (h.trans ++ blocks z scan i (suc k)) (shift_loop fuel max z h)
  shift_loop-IsShifted zero i k h enough e a = absurd (omega arith)
  shift_loop-IsShifted (suc fuel) i zero h enough e a =
      let ends = shift_round-ends i h (omega arith) a in
      (shift_round z h, loop_ends fuel h ends, inl (ends, sym (append-nil _) ∙ next-blocks i 0 h a))
  shift_loop-IsShifted (suc fuel) i (suc k) h enough e a =
      let left = shift_round-remains i k h e a in
      elim (Bool-cases (ltb (length (shift_round z h).trans) (max - 6))) [
        | inl room ↦
            let (g, o, p) =
              shift_loop-IsShifted fuel (i + 1) k (shift_round z h) (omega arith) (omega arith)
                (shift_round-At i k h e a) in
            (
              g,
              sym (loop_goes fuel h left room) ∙ o,
              subst (λ ts. IsRound max ts g) (next-blocks i (suc k) h a) p,
            )
        | inr full ↦ (
          shift_round z h,
          loop_stops fuel h left full,
          inr (ltb→lt _ _ left, ground (arith, length-next-blocks i k h a)),
        )
      ]
