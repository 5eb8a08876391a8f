-- ===== src/Client/Filled.antt =====
-- What the transactions of CTasClientRwBase::fill32 mean for the target
-- (src/tas_client/tas_client_rw_base.cpp).
use tas_client_api.Prelude.{
  ℕ, ◌+◌, ◌-◌, ◌%◌, ◌^◌, ◌≤◌, ◌<◌, ◌≡◌, refl, ap, ◌∙◌, ◌⊎◌, inl, inr, arith, true, false, List, [],
  ◌∷◌, Mem, ◌==◌, if◌then◌else◌, Bool-cases, is_within,
}
use tas_client_api.Rw.Trans.{Trans, tt_fill}
use tas_client_api.Client.Fill.{wr_trans, fill_trans, byte_of, twice, fill32_vars}

-- The byte that a write or a fill with the caller's memory `host` puts at an address of the target.
abbrev pub carried : Mem ℕ → Trans → ℕ → ℕ
carried host t a =
    if t.type == tt_fill then host (t.buf + (a - t.addr) % 8) else host (t.buf + (a - t.addr))

-- The target's memory after a transaction, and after a list of them.
abbrev pub apply : Mem ℕ → Trans → Mem ℕ → Mem ℕ
apply host t mem a = if is_within t.addr t.num_bytes a then carried host t a else mem a

abbrev pub apply_all : Mem ℕ → List Trans → Mem ℕ → Mem ℕ
apply_all host [] mem = mem
apply_all host (t ∷ ts) mem = apply_all host ts (apply host t mem)

-- The target's memory filled with a 32 bit value.
abbrev pub filled : ℕ → ℕ → ℕ → Mem ℕ → Mem ℕ
filled addr value num_bytes mem a =
    if is_within addr num_bytes a then byte_of value ((a - addr) % 4) else mem a

-- The bytes of the variables.
value_bytes :
    (host : Mem ℕ) (value p q i : ℕ)
    → (p + 4 ≤ q) ⊎ (q + 8 ≤ p)
    → i < 4
    → fill32_vars host value p q (p + i) ≡ byte_of value i
unfolding fill32_vars
value_bytes host value p q i apart h =
    let outside : is_within q 8 (p + i) ≡ false = ground arith in
    let inside : is_within p 4 (p + i) ≡ true = ground arith in
    let here : p + i - p ≡ i = omega arith in rw (outside, inside, here) refl

eight-cases :
    (i : ℕ) → i < 8 → (i ≡ 0) ⊎ (i ≡ 1) ⊎ (i ≡ 2) ⊎ (i ≡ 3) ⊎ (i ≡ 4) ⊎ (i ≡ 5) ⊎ (i ≡ 6) ⊎ (i ≡ 7)
eight-cases i h = ground arith

twice-bytes :
    (value i : ℕ) → value < 2 ^ 32 → i < 8 → byte_of (twice value) i ≡ byte_of value (i % 4)
twice-bytes value i small h = elim (eight-cases i h) [
  | inl e ↦ rw e (omega arith)
  | inr (inl e) ↦ rw e (omega arith)
  | inr (inr (inl e)) ↦ rw e (omega arith)
  | inr (inr (inr (inl e))) ↦ rw e (omega arith)
  | inr (inr (inr (inr (inl e)))) ↦ rw e (omega arith)
  | inr (inr (inr (inr (inr (inl e))))) ↦ rw e (omega arith)
  | inr (inr (inr (inr (inr (inr (inl e)))))) ↦ rw e (omega arith)
  | inr (inr (inr (inr (inr (inr (inr e)))))) ↦ rw e (omega arith)
]

value64_bytes :
    (host : Mem ℕ) (value p q i : ℕ)
    → value < 2 ^ 32
    → i < 8
    → fill32_vars host value p q (q + i) ≡ byte_of value (i % 4)
unfolding fill32_vars
value64_bytes host value p q i small h =
    let inside : is_within q 8 (q + i) ≡ true = ground arith in
    let here : q + i - q ≡ i = omega arith in rw (inside, here) (twice-bytes value i small h)

-- What a transaction at `addr` of the access that begins at `base` does with a byte: within `n` bytes
-- it puts that of the value.
abbrev pub IsPart : Mem ℕ → ℕ → ℕ → ℕ → ℕ → Trans → Type 0
IsPart host value base addr n t =
    (mem : Mem ℕ) (a : ℕ)
    → apply host t mem a ≡ (if is_within addr n a then byte_of value ((a - base) % 4) else mem a)

pub wr-IsPart :
    (host : Mem ℕ) (value p q base addr addr_map : ℕ)
    → (p + 4 ≤ q) ⊎ (q + 8 ≤ p)
    → base ≤ addr
    → (addr - base) % 4 ≡ 0
    → IsPart (fill32_vars host value p q) value base addr 4 (wr_trans addr addr_map p)
wr-IsPart host value p q base addr addr_map apart le aligned = λ mem. λ a.
    elim (Bool-cases (is_within addr 4 a)) [
      | inl e ↦
          let off : a - addr < 4 = ground arith in
          let same : a - addr ≡ (a - base) % 4 = ground arith in
          rw e (value_bytes host value p q (a - addr) apart off ∙ ap (byte_of value) same)
      | inr e ↦ rw e refl
    ]

pub fill-IsPart :
    (host : Mem ℕ) (value p q base addr n addr_map : ℕ)
    → value < 2 ^ 32
    → base ≤ addr
    → (addr - base) % 4 ≡ 0
    → IsPart (fill32_vars host value p q) value base addr n (fill_trans addr n addr_map q)
fill-IsPart host value p q base addr n addr_map small le aligned = λ mem. λ a.
    elim (Bool-cases (is_within addr n a)) [
      | inl e ↦
          let same : (a - addr) % 8 % 4 ≡ (a - base) % 4 = ground arith in
          rw e (
            value64_bytes host value p q ((a - addr) % 8) small (omega arith)
            ∙ ap (byte_of value) same)
      | inr e ↦ rw e refl
    ]
