-- ===== src/Jtag/Building.antt =====
-- The transactions that tasutil_jtag_scan builds (src/tas_client/tas_utils_jtag.cpp).
use tas_client_api.Prelude.{
  ℕ, zero, suc, ◌+◌, ◌-◌, ◌*◌, ◌<◌, ◌≡◌, ◌⊎◌, inl, inr, refl, ap, ap₂, sym, ◌∙◌, subst, Option,
  some, List, [], ◌∷◌, ◌++◌, append_assoc, append-nil, arith, length, length-append, lt→ltb, All,
  if-lem, ltb, none, ◌≤◌,
}
use tas_client_api.ErrorInfo.{TasReturn, err_none, err_fn_param}
use tas_client_api.Rw.Trans.{Trans}
use tas_client_api.Jtag.Scan.{
  Scan, Places, Shift, shift_loop, shift_fuel, start_shift, zero_data_of, head_trans, after_shift,
  scan_loop, num_trans_max, enable_trans, disable_trans, with_disable, build_trans, max_bits_trans,
}
use tas_client_api.Jtag.Plan.{
  shift_block, num_blocks, in_at, out_at, blocks, scan_plan, scans_plan, plan, IsApart,
}
use tas_client_api.Jtag.Shifting.{IsRound, IsShifted, shift_loop-IsShifted}

-- The pointer to the block for null pointers: null, or the block.
abbrev IsZeroData : Places → ℕ → Type 0
IsZeroData p z = (z ≡ 0) ⊎ (z ≡ p.zero_data)

-- Either the code is none and the transactions are `ts`; or `ts` does not fit.
abbrev Completes : ℕ → List Trans → Option (TasReturn × List Trans) → Type 0
Completes max ts o =
    (o ≡ some (err_none, ts))
    ⊎ ((us : List Trans) × (o ≡ some (err_fn_param, us)) × (max < length ts + 6))

zero_data_of-IsZeroData :
    (p : Places) (scan : Scan) (z : ℕ) → IsZeroData p z → IsZeroData p (zero_data_of p scan z)
zero_data_of-IsZeroData p scan z h = ground arith

zero_data_of-null :
    (p : Places) (scan : Scan) (z : ℕ)
    → IsZeroData p z
    → scan.data_in ≡ 0
    → zero_data_of p scan z ≡ p.zero_data
zero_data_of-null p scan z h e = ground arith

zero_data_of-IsApart :
    (p : Places) (scan : Scan) (z : ℕ)
    → IsZeroData p z
    → IsApart p.zero_data scan
    → IsApart (zero_data_of p scan z) scan
zero_data_of-IsApart p scan z h a = record {
  in_fits = a.in_fits;
  out_fits = a.out_fits;
  apart = ground (arith, a.apart);
}

blocks-zero_data_of :
    (p : Places) (scan : Scan) (z i k : ℕ)
    → IsZeroData p z
    → blocks (zero_data_of p scan z) scan i k ≡ blocks p.zero_data scan i k
blocks-zero_data_of p scan z i zero h = refl
blocks-zero_data_of p scan z i (suc k) h =
    let same : in_at (zero_data_of p scan z) scan i ≡ in_at p.zero_data scan i = ground arith in
    ap₂ (λ a l. shift_block a (out_at scan i) (scan.num_bits - max_bits_trans * i) ++ l) same
      (blocks-zero_data_of p scan z (i + 1) k h)

-- One scan, after the transactions `ts`.
scan-IsShifted :
    (p : Places) (max s z : ℕ) (scan : Scan) (ts : List Trans)
    → IsZeroData p z
    → IsApart p.zero_data scan
    → IsShifted max (ts ++ scan_plan p s scan) (
        shift_loop
          (shift_fuel scan)
          max
          (zero_data_of p scan z)
          (start_shift (zero_data_of p scan z) scan (ts ++ head_trans p s scan)))
unfolding head_trans
scan-IsShifted p max s z scan ts h a =
    subst (λ us. IsShifted max us loop)
      (ap (λ l. (ts ++ head_trans p s scan) ++ l) same ∙ append_assoc ts _ _)
      (shift_loop-IsShifted z' max scan (zero_data_of-IsApart p scan z h a) (shift_fuel scan) 0 k
        (start_shift z' scan (ts ++ head_trans p s scan)) (ground arith) (omega (arith, count))
        (record { data_in = ground arith; data_out = ground arith; bits = omega arith }))
  where
    z' : ℕ
    z' = zero_data_of p scan z

    k : ℕ
    k = num_blocks scan.num_bits - 1

    count : suc k ≡ num_blocks scan.num_bits
    count = ground arith

    loop : Option Shift
    loop = shift_loop (shift_fuel scan) max z' (start_shift z' scan (ts ++ head_trans p s scan))

    same : blocks z' scan 0 (suc k) ≡ blocks p.zero_data scan 0 (num_blocks scan.num_bits)
    same = blocks-zero_data_of p scan z 0 (suc k) h ∙ ap (blocks p.zero_data scan 0) count

-- What follows the blocks of a scan.
after_shift-Completes :
    (max : ℕ) (next : List Trans → Option (TasReturn × List Trans)) (ts us : List Trans) (g : Shift)
    → ((vs : List Trans) → Completes max (vs ++ us) (next vs))
    → IsRound max ts g
    → Completes max (ts ++ us) (after_shift next (some g))
after_shift-Completes max next ts us g rest (inl (ends, e)) =
    rw ends (subst (λ vs. Completes max (vs ++ us) (next g.trans)) e (rest g.trans))
after_shift-Completes max next ts us g rest (inr (left, full)) =
    inr (g.trans, rw (lt→ltb 0 _ left) refl, omega (arith, full, length-append ts us))

scan-Completes :
    (max : ℕ) (next : List Trans → Option (TasReturn × List Trans)) (ts own us : List Trans)
    (o : Option Shift)
    → ((vs : List Trans) → Completes max (vs ++ us) (next vs))
    → IsShifted max (ts ++ own) o
    → Completes max (ts ++ (own ++ us)) (after_shift next o)
scan-Completes max next ts own us o rest (g, e, r) =
    subst (λ x. Completes max (ts ++ (own ++ us)) (after_shift next x)) (sym e)
      (subst (λ vs. Completes max vs (after_shift next (some g))) (append_assoc ts own us)
        (after_shift-Completes max next (ts ++ own) us g rest r))

scan_loop-Completes :
    (p : Places) (max s z : ℕ) (scans : List Scan) (ts : List Trans)
    → IsZeroData p z
    → All (IsApart p.zero_data) scans
    → Completes max (ts ++ scans_plan p s scans) (scan_loop p max s z scans ts)
unfolding scan_loop
scan_loop-Completes p max s z [] ts h a = inl (ap (λ us. some (err_none, us)) (sym (append-nil ts)))
scan_loop-Completes p max s z (scan ∷ scans) ts h (a, rest) =
    scan-Completes max (scan_loop p max (s + 1) (zero_data_of p scan z) scans) ts
      (scan_plan p s scan) (scans_plan p (s + 1) scans)
      (shift_loop (shift_fuel scan) max (zero_data_of p scan z)
        (start_shift (zero_data_of p scan z) scan (ts ++ head_trans p s scan)))
      (λ vs.
        scan_loop-Completes p max (s + 1) (zero_data_of p scan z) scans vs
          (zero_data_of-IsZeroData p scan z h) rest)
      (scan-IsShifted p max s z scan ts h a)

-- The transactions are the plan, and within the array; or the plan and four more are not, and there
-- is the error; or else more transactions than the array has places, of which the plan is made, too.
abbrev pub Builds : Places → List Scan → Option (TasReturn × List Trans) → Type 0
Builds p scans o =
    ((o ≡ some (err_none, plan p scans)) × (length (plan p scans) ≤ num_trans_max (length scans)))
    ⊎ (((us : List Trans) × (o ≡ some (err_fn_param, us))
          × (num_trans_max (length scans) < length (plan p scans) + 5))
        ⊎ ((o ≡ none) × (num_trans_max (length scans) < length (plan p scans) + 5)))

with_disable-Builds :
    (p : Places) (scans : List Scan) (o : Option (TasReturn × List Trans))
    → Completes (num_trans_max (length scans)) (enable_trans p ∷ scans_plan p 0 scans) o
    → Builds p scans (with_disable p (num_trans_max (length scans)) o)
with_disable-Builds p scans o (inl e) =
    let ts : List Trans = enable_trans p ∷ scans_plan p 0 scans in
    let len = length-append (scans_plan p 0 scans) (disable_trans p ∷ []) in
    subst (λ x. Builds p scans (with_disable p (num_trans_max (length scans)) x)) (sym e)
      (if-lem (Builds p scans) (ltb (num_trans_max (length scans)) (length ts + 1))
        (λ h. inr (inr (refl, ground (arith, h, len)))) (λ h. inl (refl, ground (arith, h, len))))
with_disable-Builds p scans o (inr (us, e, full)) =
    let len = length-append (scans_plan p 0 scans) (disable_trans p ∷ []) in
    subst (λ x. Builds p scans (with_disable p (num_trans_max (length scans)) x)) (sym e)
      (if-lem (Builds p scans) (ltb (num_trans_max (length scans)) (length us + 1))
        (λ h. inr (inr (refl, omega (arith, full, len))))
        (λ h. inr (inl (us ++ disable_trans p ∷ [], refl, omega (arith, full, len)))))

pub build_trans-Builds :
    (p : Places) (scans : List Scan)
    → All (IsApart p.zero_data) scans
    → Builds p scans (build_trans p scans)
unfolding build_trans
build_trans-Builds p scans a =
    with_disable-Builds p scans
      (scan_loop p (num_trans_max (length scans)) 0 0 scans (enable_trans p ∷ []))
      (scan_loop-Completes p (num_trans_max (length scans)) 0 0 scans (enable_trans p ∷ [])
        (inl refl) a)
