-- ===== src/Rw/AddAccess.antt =====
-- `rw_add_rd` and `rw_add_wr` as a whole (src/tas_client/tas_pkt_handler_rw.cpp).
use tas_client_api.Prelude.{
  ℕ, ◌+◌, ◌^◌, ◌≤◌, ◌<◌, ◌≡◌, refl, sym, ap, ◌∙◌, subst, List, [], ◌∷◌, ◌++◌, some, Bool, true, Mem,
  entries, entries-snoc, store, arith,
}
use tas_client_api.Rw.Trans.{Trans, tt_rd, tt_wr}
use tas_client_api.Rw.State.{Rw}
use tas_client_api.Rw.Split.{Cursor, Steps, split}
use tas_client_api.Rw.Request.{
  effective_map, finalize_if, prepare_rd, prepare_wr, rd_steps, wr_steps, accepts, push_rw_trans,
  note_trans, rw_add_rd, rw_add_wr,
}
use tas_client_api.Rw.Frame.{Limits, limits, Keeps, Keeps-if, pkt_finalize-Keeps}
use tas_client_api.Rw.Laws.{trans, pl0_list, rw_list}
use tas_client_api.Rw.Tiling.{Tiled}
use tas_client_api.Rw.StepsIf.{IsConfigured, StepsLaws}
use tas_client_api.Rw.Cut.{At, split-At}
use tas_client_api.Rw.Steps.{rd_steps-StepsLaws, wr_steps-StepsLaws}

pub finalize_if-Keeps : (b : Bool) (r : Rw) → Keeps r (finalize_if b r)
finalize_if-Keeps b r = Keeps-if b _ r r (pkt_finalize-Keeps true r) refl

prepare_rd-Keeps : (r : Rw) (a n m : ℕ) → Keeps r (prepare_rd r a n m)
unfolding prepare_rd
prepare_rd-Keeps r a n m = finalize_if-Keeps _ _ ∙ finalize_if-Keeps _ r

prepare_wr-Keeps : (r : Rw) (a n m : ℕ) → Keeps r (prepare_wr r a n m)
unfolding prepare_wr
prepare_wr-Keeps r a n m = finalize_if-Keeps _ _ ∙ finalize_if-Keeps _ r

-- What an access of `n` bytes at `a` leaves in the object: packets that make it up, in order, behind
-- those that were there, and one more transaction of the caller.
pub record Added (r r' : Rw) (type a n d am m : ℕ) : Type 0 where
  pub pl0 : List Trans
  pub pl0_is : pl0_list r' ≡ pl0_list r ++ pl0
  pub pl0_tiled : Tiled am m type pl0 a d n
  pub rw_mode : ℕ
  pub rw_map : ℕ
  pub rw_is : rw_list r' ≡ rw_list r ++ trans a n rw_mode rw_map type d ∷ []
  pub pl0_count : r'.pl0_num_trans ≤ r.pl0_num_trans + n
  pub rw_count : r'.rw_num_trans ≡ r.rw_num_trans + 1
  pub conf : IsConfigured (limits r')

-- The object can take an access of `n` bytes at `a` from a buffer at `d`: its packets are configured,
-- no address wraps, and no counter overruns.
pub record CanTake (r : Rw) (a n d : ℕ) : Type 0 where
  pub conf : IsConfigured (limits r)
  pub a_fits : a + n ≤ 2 ^ 64
  pub d_fits : d + n ≤ 2 ^ 64
  pub pl0_fits : r.pl0_num_trans + n < 2 ^ 32
  pub rw_fits : r.rw_num_trans + 1 < 2 ^ 32

-- The transaction that is noted stands behind those before.
pub push_rw-list :
    (r x : Rw) (a n type d : ℕ)
    → limits x ≡ limits r
    → r.rw_num_trans + 1 < 2 ^ 32
    → rw_list (push_rw_trans x a n type d)
      ≡ rw_list r ++ trans a n x.pl0_acc_mode x.pl0_addr_map type d ∷ []
unfolding push_rw_trans
push_rw-list r x a n type d same h =
    let num : x.rw_num_trans ≡ r.rw_num_trans = ap (λ l. l.rw_num_trans) same in
    let new : Trans = trans a n x.pl0_acc_mode x.pl0_addr_map type d in
    ap (entries (store x.rw_trans x.rw_num_trans new) 0) (omega (arith, num, h))
    ∙ entries-snoc x.rw_trans 0 x.rw_num_trans x.rw_num_trans new (omega arith)
    ∙ ap (λ (l : Limits). entries l.rw_trans 0 l.rw_num_trans ++ new ∷ []) same

-- The common proof, from the state `r1` in which the splitting starts.
access-Added :
    (s : Steps) (type am m : ℕ)
    → StepsLaws s am m type
    → (fuel : ℕ) (r r1 : Rw) (a n d : ℕ) → Keeps r r1
    → CanTake r a n d
    → 0 < n
    → n + 1 < fuel
    → (r' : Rw) × (note_trans a n type d (split s fuel (record { rw = r1; a = a; nb = n; d = d }))
        ≡ some (true, r'))
      × Added r r' type a n d am m
unfolding push_rw_trans
access-Added s type am m law fuel r r1 a n d k can pos enough = (
  push_rw_trans c.rw a n type d,
  rw cut.1,
  record {
    pl0 = at.added;
    pl0_is = at.list ∙ ap (λ f. entries f.trans 0 f.num ++ at.added) k;
    pl0_tiled = subst (Tiled am m type at.added a d) (omega (arith, cut.3)) at.tiled;
    rw_mode = c.rw.pl0_acc_mode;
    rw_map = c.rw.pl0_addr_map;
    rw_is = push_rw-list r c.rw a n type d same can.rw_fits;
    pl0_count = omega (arith, at.room, ap (λ f. f.num) k);
    rw_count = omega (arith, num, can.rw_fits);
    conf = record {
      rq_pkt = conf'.rq_pkt;
      rsp_pkt = conf'.rsp_pkt;
      rq_buf = conf'.rq_buf;
      rq_small = conf'.rq_small;
      rsp_buf = conf'.rsp_buf;
      wr_min = conf'.wr_min;
      wr_max = conf'.wr_max;
      rd_min = conf'.rd_min;
      rd_max = conf'.rd_max;
    };
  },
)
  where
    conf1 : IsConfigured (limits r1)
    conf1 = subst (λ f. IsConfigured f.limit) (sym k) can.conf

    room1 : r1.pl0_num_trans + n < 2 ^ 32
    room1 = omega (arith, ap (λ f. f.num) k, can.pl0_fits)

    n_fits : n < 2 ^ 32
    n_fits = omega (arith, can.pl0_fits)

    cut :
        (c : Cursor) × (split s fuel (record { rw = r1; a = a; nb = n; d = d }) ≡ some c)
        × At s am m type law r1 a n d conf1 can.a_fits can.d_fits n_fits room1 c
        × (c.nb ≡ 0)
    cut = split-At s am m type law r1 a n d conf1 can.a_fits can.d_fits n_fits room1 fuel pos enough

    c : Cursor
    c = cut.0

    at : At s am m type law r1 a n d conf1 can.a_fits can.d_fits n_fits room1 c
    at = cut.2

    same : limits c.rw ≡ limits r
    same = at.same ∙ ap (λ f. f.limit) k

    num : c.rw.rw_num_trans ≡ r.rw_num_trans
    num = ap (λ l. l.rw_num_trans) same

    conf' : IsConfigured (limits c.rw)
    conf' = subst IsConfigured (sym same) can.conf

accepts-pos : (r : Rw) (n rd wr m : ℕ) → accepts r n rd wr m ≡ true → 0 < n
unfolding accepts
accepts-pos r n rd wr m h = ground arith

-- A read that passes the checks of `rw_add_rd` is added completely, if the object is configured and
-- neither addresses nor counters wrap: with fuel for each byte the call returns `true`, and the PL0
-- reads that it appends make up the `num_bytes` bytes from `addr` on, in order and without gap or overlap, each of a size and an alignment that a PL0 command exists for,
-- each with the access mode and the address map of the call and its part of the buffer; one
-- transaction of the caller is noted.
pub rw_add_rd-Added :
    (fuel : ℕ) (r : Rw) (addr num_bytes buf acc_mode addr_map : ℕ)
    → CanTake r addr num_bytes buf
    → accepts r num_bytes num_bytes 0 addr_map ≡ true
    → num_bytes + 1 < fuel
    → (r' : Rw) × (rw_add_rd fuel r addr num_bytes buf acc_mode addr_map ≡ some (true, r'))
      × Added r r' tt_rd addr num_bytes buf acc_mode (effective_map addr_map)
unfolding rw_add_rd
rw_add_rd-Added fuel r addr n buf am m can ok enough = rw ok (
    access-Added (rd_steps am (effective_map m)) tt_rd am (effective_map m)
      (rd_steps-StepsLaws am (effective_map m)) fuel r (prepare_rd r addr n m) addr n buf
      (prepare_rd-Keeps r addr n m) can (accepts-pos r n n 0 m ok) enough)

-- The same of `rw_add_wr`, under the same conditions and whatever the caller's memory holds: a write
-- that passes the checks is added completely, as PL0 writes that make up the `num_bytes` bytes from
-- `addr` on, and one transaction of the caller is noted.
pub rw_add_wr-Added :
    (host : Mem ℕ) (fuel : ℕ) (r : Rw) (addr num_bytes buf acc_mode addr_map : ℕ)
    → CanTake r addr num_bytes buf
    → accepts r num_bytes 0 num_bytes addr_map ≡ true
    → num_bytes + 1 < fuel
    → (r' : Rw) × (rw_add_wr host fuel r addr num_bytes buf acc_mode addr_map ≡ some (true, r'))
      × Added r r' tt_wr addr num_bytes buf acc_mode (effective_map addr_map)
unfolding rw_add_wr
rw_add_wr-Added host fuel r addr n buf am m can ok enough = rw ok (
    access-Added (wr_steps host am (effective_map m)) tt_wr am (effective_map m)
      (wr_steps-StepsLaws host am (effective_map m)) fuel r (prepare_wr r addr n m) addr n buf
      (prepare_wr-Keeps r addr n m) can (accepts-pos r n 0 n m ok) enough)
