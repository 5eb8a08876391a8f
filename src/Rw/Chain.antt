-- ===== src/Rw/Chain.antt =====
-- A request as a chain of PL2 packets in words, each of which begins with its length in bytes
-- (src/tas_client/tas_pkt_handler_rw.cpp).
use tas_client_api.Prelude.{
  ℕ, ◌+◌, ◌/◌, ◌%◌, ◌≤◌, ◌<◌, ◌≡◌, ◌∙◌, List, [], ◌∷◌, ◌++◌, Mem, All, arith, subst, sym,
}

-- Whole words, no more than `max` bytes, and no less than the headers.
abbrev pub IsSized : ℕ → ℕ → Type 0
IsSized max l = (l % 4 ≡ 0) × (16 ≤ l) × (l ≤ max)

-- Packets of these lengths stand one behind the other from word `w` to word `e`.
abbrev pub IsChain : Mem ℕ → ℕ → List ℕ → ℕ → Type 0
IsChain buf w [] e = w ≡ e
IsChain buf w (l ∷ ls) e = (buf w ≡ l) × IsChain buf (w + l / 4) ls e

pub IsChain-le : (buf : Mem ℕ) (w e : ℕ) (ls : List ℕ) → IsChain buf w ls e → w ≤ e
IsChain-le buf w e [] h = omega arith
IsChain-le buf w e (l ∷ ls) (h, k) = omega (arith, IsChain-le buf (w + l / 4) e ls k)

-- What is written behind a chain leaves it.
pub IsChain-same :
    (max : ℕ) (buf buf' : Mem ℕ) (w e : ℕ) (ls : List ℕ)
    → All (IsSized max) ls
    → ((k : ℕ) → k < e → buf' k ≡ buf k)
    → IsChain buf w ls e
    → IsChain buf' w ls e
IsChain-same max buf buf' w e [] sized same h = h
IsChain-same max buf buf' w e (l ∷ ls) (sized, more) same (h, k) = (
  same w (omega (arith, sized, IsChain-le buf (w + l / 4) e ls k)) ∙ h,
  IsChain-same max buf buf' (w + l / 4) e ls more same k,
)

-- One more packet at the end.
pub IsChain-snoc :
    (buf : Mem ℕ) (w e l e' : ℕ) (ls : List ℕ)
    → IsChain buf w ls e
    → buf e ≡ l
    → e + l / 4 ≡ e'
    → IsChain buf w (ls ++ l ∷ []) e'
IsChain-snoc buf w e l e' [] h last end =
    (subst (λ x. buf x ≡ l) (sym h) last, omega (arith, h, end))
IsChain-snoc buf w e l e' (x ∷ ls) (h, k) last end =
    (h, IsChain-snoc buf (w + x / 4) e l e' ls k last end)
