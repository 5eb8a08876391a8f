-- ===== src/Rw/AddFill.antt =====
-- `rw_add_fill` as a whole (src/tas_client/tas_pkt_handler_rw.cpp).
use tas_client_api.Prelude.{
  ℕ, ◌+◌, ◌-◌, ◌%◌, ◌≤◌, ◌≡◌, List, [], ◌∷◌, ◌++◌, Bool, ◌||◌, leb, ◌==◌, ◌!=◌,
}
use tas_client_api.Pkt.AddrMap
use tas_client_api.Rw.Trans.{Trans, tt_fill}
use tas_client_api.Rw.State.{Rw}
use tas_client_api.Rw.Frame.{limits}
use tas_client_api.Rw.Laws.{trans, pl0_list, rw_list}

-- The transactions `ts` fill the `n` bytes from `a` on, one after the other, each whole 64 bit words
-- and at most 1 KB.
module _ (am m : ℕ) where
  abbrev pub Filled : List Trans → ℕ → ℕ → Type 0
  Filled [] a n = n ≡ 0
  Filled (t ∷ ts) a n =
      (t ≡ trans a t.num_bytes am m tt_fill 0)
      × ((8 ≤ t.num_bytes) × (t.num_bytes ≤ 1024) × (t.num_bytes % 8 ≡ 0) × (a % 8 ≡ 0))
      × (t.num_bytes ≤ n)
      × Filled ts (a + t.num_bytes) (n - t.num_bytes)

-- What the loop leaves.
record Fills (r r' : Rw) (am m a n : ℕ) : Type 0 where
  same : limits r' ≡ limits r
  count : r'.pl0_num_trans ≤ r.pl0_num_trans + n
  added : List Trans
  list : pl0_list r' ≡ pl0_list r ++ added
  filled : Filled am m added a n

-- What a fill of `n` bytes at `a` leaves in the object: packets that fill them, in order, behind
-- those that were there, and one more transaction of the caller.
pub record FillAdded (r r' : Rw) (a n am m : ℕ) : Type 0 where
  pub pl0 : List Trans
  pub pl0_is : pl0_list r' ≡ pl0_list r ++ pl0
  pub pl0_filled : Filled am m pl0 a n
  pub rw_mode : ℕ
  pub rw_map : ℕ
  pub rw_is : rw_list r' ≡ rw_list r ++ trans a n rw_mode rw_map tt_fill 0 ∷ []
  pub pl0_inside : r'.pl0_num_trans ≤ r.num_trans_max
  pub rw_inside : r'.rw_num_trans ≤ r.num_trans_max

-- The tests of `rw_add_fill`.
abbrev pub is_bad_fill : ℕ → ℕ → ℕ → ℕ → Bool
is_bad_fill a n am m = a % 8 != 0 || n == 0 || n % 8 != 0 || am != 0 || leb AddrMap.am12 m
