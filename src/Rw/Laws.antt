-- ===== src/Rw/Laws.antt =====
-- What `mPktAdd_Rd`, `mPktAdd_Wr` and `mPktAdd_Fill` do to the list of PL0 transactions: each adds one
-- entry, with the address map and access mode of its call, and leaves the rest alone.
use tas_client_api.Prelude.{
  ℕ, ◌+◌, ◌<◌, ◌^◌, ◌≡◌, ◌≢◌, refl, ap, ◌∙◌, List, [], ◌∷◌, ◌++◌, Mem, entries, entries-snoc, arith,
  leb, ap₂, false, ◌==◌, Bool-cases, inl, inr,
}
use tas_client_api.Rw.Trans.{Trans, tt_rd, tt_wr, tt_fill}
use tas_client_api.Rw.State.{Rw}
use tas_client_api.Rw.Add.{
  set_addr_map_acc_mode_base_addr, begin_pl0, write_rd, write_wr, write_fill, push_pl0_trans,
  pkt_add_rd, pkt_add_wr, pkt_add_fill, rd_rq_size, rd_rsp_size, wr_rq_size, wr_rsp_size,
  fill_rq_size,
}
use tas_client_api.Rw.Frame.{limits, Keeps, begin_pl0-Keeps}

-- The PL0 transactions added so far.
abbrev pub pl0_list : Rw → List Trans
pl0_list r = entries r.pl0_trans 0 r.pl0_num_trans

abbrev pub rw_list : Rw → List Trans
rw_list r = entries r.rw_trans 0 r.rw_num_trans

-- The selected address map and access mode.
abbrev Selects : Rw → ℕ → ℕ → Type 0
Selects r am m = (r.pl0_acc_mode ≡ am) × (r.pl0_addr_map ≡ m)

select-Selects : (r : Rw) (m am a : ℕ) → Selects (set_addr_map_acc_mode_base_addr r m am a) am m
unfolding set_addr_map_acc_mode_base_addr
select-Selects r m am a = ground arith

begin_pl0-Selects : (r : Rw) (a am m rq rsp : ℕ) → Selects (begin_pl0 r a am m rq rsp) am m
unfolding begin_pl0
begin_pl0-Selects r a am m rq rsp = select-Selects _ m am a

-- Writing the packet itself changes neither the frame nor the selection.
abbrev Writes : Rw → Rw → Type 0
Writes r r' = Keeps r r' × (r'.pl0_acc_mode ≡ r.pl0_acc_mode) × (r'.pl0_addr_map ≡ r.pl0_addr_map)

write_rd-Writes : (r : Rw) (a n : ℕ) → Writes r (write_rd r a n)
unfolding write_rd
write_rd-Writes r a n = elim (Bool-cases (leb n 8)) [
  | inl e ↦ rw e (refl, refl, refl)
  | inr e ↦ rw e (refl, refl, refl)
]

write_wr-Writes : (host : Mem ℕ) (r : Rw) (a n d : ℕ) → Writes r (write_wr host r a n d)
unfolding write_wr
write_wr-Writes host r a n d = elim (Bool-cases (leb n 8)) [
  | inl e ↦ rw e (refl, refl, refl)
  | inr e ↦ rw e (refl, refl, refl)
]

write_fill-Writes : (r : Rw) (a n v : ℕ) → Writes r (write_fill r a n v)
unfolding write_fill
write_fill-Writes r a n v = (refl, refl, refl)

-- What one more PL0 transaction does.
pub record Adds (r r' : Rw) (t : Trans) : Type 0 where
  pub same : limits r' ≡ limits r
  pub count : r'.pl0_num_trans ≡ r.pl0_num_trans + 1
  pub list : pl0_list r' ≡ pl0_list r ++ t ∷ []

abbrev pub trans : ℕ → ℕ → ℕ → ℕ → ℕ → ℕ → Trans
trans a n am m type d = record {
  addr = a;
  num_bytes = n;
  acc_mode = am;
  addr_map = m;
  type = type;
  buf = d;
}

push-Adds :
    (r r1 r2 : Rw) (a n am m type d : ℕ)
    → Keeps r r1
    → Selects r1 am m
    → Writes r1 r2
    → r.pl0_num_trans + 1 < 2 ^ 32
    → Adds r (push_pl0_trans r2 a n type d) (trans a n am m type d)
unfolding push_pl0_trans
push-Adds r r1 r2 a n am m type d k s w h = record {
  same = ap (λ f. f.limit) w.0 ∙ ap (λ f. f.limit) k;
  count = omega (arith, num);
  list =
      ap (entries _ 0) (omega (arith, num))
      ∙ entries-snoc r2.pl0_trans 0 r2.pl0_num_trans r2.pl0_num_trans _ (omega arith)
      ∙ ap₂ (λ xs t. xs ++ t ∷ []) (ap (λ f. entries f.trans 0 f.num) (w.0 ∙ k)) entry;
}
  where
    num : r2.pl0_num_trans ≡ r.pl0_num_trans
    num = ap (λ f. f.num) w.0 ∙ ap (λ f. f.num) k

    entry : trans a n r2.pl0_acc_mode r2.pl0_addr_map type d ≡ trans a n am m type d
    entry = ap₂ (λ x y. trans a n x y type d) (w.1 ∙ s.0) (w.2 ∙ s.1)

ne_zero_test : (n : ℕ) → n ≢ 0 → (n == 0) ≡ false
ne_zero_test n h = ground arith

-- The common shape of the three functions, `write` being their own packet.
add-Adds :
    (write : Rw → Rw) (r : Rw) (a n am m type d rq rsp : ℕ)
    → ((x : Rw) → Writes x (write x))
    → r.pl0_num_trans + 1 < 2 ^ 32
    → Adds r (push_pl0_trans (write (begin_pl0 r a am m rq rsp)) a n type d) (trans a n am m type d)
add-Adds write r a n am m type d rq rsp w h =
    push-Adds r (begin_pl0 r a am m rq rsp) (write (begin_pl0 r a am m rq rsp)) a n am m type d
      (begin_pl0-Keeps r a am m rq rsp) (begin_pl0-Selects r a am m rq rsp)
      (w (begin_pl0 r a am m rq rsp)) h

-- `mPktAdd_Rd` adds the read of `n` bytes at `a`.
pub pkt_add_rd-Adds :
    (r : Rw) (a n d am m : ℕ)
    → n ≢ 0
    → r.pl0_num_trans + 1 < 2 ^ 32
    → Adds r (pkt_add_rd r a n d am m) (trans a n am m tt_rd d)
unfolding pkt_add_rd
pkt_add_rd-Adds r a n d am m ne h = rw (ne_zero_test n ne) (
    add-Adds (λ x. write_rd x a n) r a n am m tt_rd d rd_rq_size (rd_rsp_size n)
      (λ x. write_rd-Writes x a n) h)

-- `mPktAdd_Wr` adds the write of `n` bytes at `a`.
pub pkt_add_wr-Adds :
    (host : Mem ℕ) (r : Rw) (a n d am m : ℕ)
    → n ≢ 0
    → r.pl0_num_trans + 1 < 2 ^ 32
    → Adds r (pkt_add_wr host r a n d am m) (trans a n am m tt_wr d)
unfolding pkt_add_wr
pkt_add_wr-Adds host r a n d am m ne h = rw (ne_zero_test n ne) (
    add-Adds (λ x. write_wr host x a n d) r a n am m tt_wr d (wr_rq_size n) wr_rsp_size
      (λ x. write_wr-Writes host x a n d) h)

-- `mPktAdd_Fill` adds the fill of `n` bytes at `a`.
pub pkt_add_fill-Adds :
    (r : Rw) (a n v am m : ℕ)
    → r.pl0_num_trans + 1 < 2 ^ 32
    → Adds r (pkt_add_fill r a n v am m) (trans a n am m tt_fill 0)
unfolding pkt_add_fill
pkt_add_fill-Adds r a n v am m h =
    add-Adds (λ x. write_fill x a n v) r a n am m tt_fill 0 fill_rq_size wr_rsp_size
      (λ x. write_fill-Writes x a n v) h

-- Of no bytes nothing is added.
pub pkt_add_rd-zero : (r : Rw) (a d am m : ℕ) → pkt_add_rd r a 0 d am m ≡ r
unfolding pkt_add_rd
pkt_add_rd-zero r a d am m = refl

pub pkt_add_wr-zero : (host : Mem ℕ) (r : Rw) (a d am m : ℕ) → pkt_add_wr host r a 0 d am m ≡ r
unfolding pkt_add_wr
pkt_add_wr-zero host r a d am m = refl
