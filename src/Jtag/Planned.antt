-- ===== src/Jtag/Planned.antt =====
-- That tasutil_jtag_scan executes its plan (src/tas_client/tas_utils_jtag.cpp).
use tas_client_api.Prelude.{
  ℕ, ◌+◌, ◌*◌, ◌≤◌, ◌<◌, ◌≡◌, ◌⊎◌, inl, inr, ap, Option, none, some, List, [], ◌∷◌, arith, Mem,
  length, length-append, All,
}
use tas_client_api.ErrorInfo.{TasReturn, err_fn_param}
use tas_client_api.Rw.Trans.{Trans}
use tas_client_api.Client.MailboxIf.{MailboxIf}
use tas_client_api.Client.Rw.{ClientRw, Executed, executed, execute_trans}
use tas_client_api.Jtag.Scan.{
  Scan, Places, num_trans_max, disable_trans, build_trans, execute_built, jtag_scan, max_bits_trans,
}
use tas_client_api.Jtag.Plan.{prepare, num_blocks, blocks, scan_plan, scans_plan, plan, IsApart}
use tas_client_api.Jtag.Building.{Builds, build_trans-Builds}

-- The plan is executed, and within the array; or it and four more transactions do not fit into the
-- array, and then either the error is returned, and nothing else changes, or the source writes behind
-- the array.
abbrev pub IsScan :
    {M : Type 0}
    → MailboxIf M
    → Places
    → Mem ℕ
    → List Scan
    → ClientRw M
    → Option (Executed M)
    → Type 0
IsScan mb_if p host scans k o =
    ((o ≡ execute_trans mb_if host (plan p scans) k)
      × (length (plan p scans) ≤ num_trans_max (length scans)))
    ⊎ (((o ≡ some (executed err_fn_param k host)) ⊎ (o ≡ none))
        × (num_trans_max (length scans) < length (plan p scans) + 5))

module _ {M : Type 0} (mb_if : MailboxIf M) where
  execute_built-IsScan :
      (p : Places) (host : Mem ℕ) (scans : List Scan) (k : ClientRw M)
      (o : Option (TasReturn × List Trans))
      → Builds p scans o
      → IsScan mb_if p host scans k (execute_built mb_if host k o)
  execute_built-IsScan p host scans k o (inl (e, fits)) =
      inl (ap (execute_built mb_if host k) e, fits)
  execute_built-IsScan p host scans k o (inr (inl (us, e, full))) =
      inr (inl (ap (execute_built mb_if host k) e), full)
  execute_built-IsScan p host scans k o (inr (inr (e, full))) =
      inr (inr (ap (execute_built mb_if host k) e), full)

  -- If no buffer of the scans wraps around the end of memory, and the block for null pointers lies
  -- apart from their data, then either `jtag_scan` executes the plan, in which each scan is prepared
  -- and its bits are shifted in blocks of at most 8192 bits, one after the other and each at its own
  -- place of the buffers, and which fits into the array of the function. Or else the plan and four
  -- more transactions do not fit into the array: then either the parameter error is returned,
  -- nothing is executed, and the client and the caller's memory stay; or the function writes behind
  -- its array, for which the model has no result.
  pub jtag_scan-IsScan :
      (p : Places) (host : Mem ℕ) (scans : List Scan) (k : ClientRw M)
      → All (IsApart p.zero_data) scans
      → IsScan mb_if p host scans k (jtag_scan mb_if p host scans k)
  unfolding jtag_scan
  jtag_scan-IsScan p host scans k a =
      execute_built-IsScan p host scans k (build_trans p scans) (build_trans-Builds p scans a)

prepare-le : (p : Places) (s : ℕ) (scan : Scan) → length (prepare p s scan) ≤ 3
prepare-le p s scan = ground arith

one_block-le :
    (z : ℕ) (scan : Scan)
    → scan.num_bits ≤ max_bits_trans
    → length (blocks z scan 0 (num_blocks scan.num_bits)) ≤ 2
one_block-le z scan h =
    let one : num_blocks scan.num_bits ≡ 1 = ground arith in rw one (ground arith)

-- A scan of at most one block.
abbrev pub IsShort : Scan → Type 0
IsShort scan = scan.num_bits ≤ max_bits_trans

scans_plan-le :
    (p : Places) (s : ℕ) (scans : List Scan)
    → All IsShort scans
    → length (scans_plan p s scans) ≤ 5 * length scans
scans_plan-le p s [] h = omega arith
scans_plan-le p s (scan ∷ scans) (h, rest) = omega (
  arith,
  prepare-le p s scan,
  one_block-le p.zero_data scan h,
  length-append (prepare p s scan) (blocks p.zero_data scan 0 (num_blocks scan.num_bits)),
  length-append (scan_plan p s scan) (scans_plan p (s + 1) scans),
  scans_plan-le p (s + 1) scans rest,
)

plan-le :
    (p : Places) (scans : List Scan)
    → All IsShort scans
    → length (plan p scans) ≤ 2 + 5 * length scans
plan-le p scans h =
    omega (
      arith,
      scans_plan-le p 0 scans h,
      length-append (scans_plan p 0 scans) (disable_trans p ∷ []),
    )

module _ {M : Type 0} (mb_if : MailboxIf M) where
  fits :
      (p : Places) (host : Mem ℕ) (scans : List Scan) (k : ClientRw M) (o : Option (Executed M))
      → All IsShort scans
      → IsScan mb_if p host scans k o
      → o ≡ execute_trans mb_if host (plan p scans) k
  fits p host scans k o h (inl (e, inside)) = e
  fits p host scans k o h (inr (e, full)) = absurd (omega (arith, full, plan-le p scans h))

  -- If no buffer of the scans wraps around the end of memory, and the block for null pointers lies
  -- apart from their data, then scans of at most 8192 bits each are always executed by their plan,
  -- and its transactions fit into the array of the function, of which they leave a free place for
  -- each scan and 14 more.
  pub jtag_scan-fits :
      (p : Places) (host : Mem ℕ) (scans : List Scan) (k : ClientRw M)
      → All (IsApart p.zero_data) scans
      → All IsShort scans
      → (jtag_scan mb_if p host scans k ≡ execute_trans mb_if host (plan p scans) k)
        × (length (plan p scans) + length scans + 14 ≤ num_trans_max (length scans))
  jtag_scan-fits p host scans k a h = (
    fits p host scans k _ h (jtag_scan-IsScan mb_if p host scans k a),
    omega (arith, plan-le p scans h),
  )
