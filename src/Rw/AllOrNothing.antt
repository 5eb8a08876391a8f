-- ===== src/Rw/AllOrNothing.antt =====
-- Refused transactions, and the refusal of `rw_set_trans` (src/tas_client/tas_pkt_handler_rw.cpp).
use tas_client_api.Prelude.{
  ℕ, ◌≡◌, ◌≢◌, refl, sym, ap, subst, Mem, Bool, true, false, Option, none, some, List, [], ◌∷◌,
  entries, if-lem, ◌==◌, ◌!=◌, leb, ◌||◌, ◌%◌, ◌+◌, ℕ, some-inj, none-ne,
}
use tas_client_api.Pkt.AddrMap
use tas_client_api.Pkt.Size
use tas_client_api.Rw.Trans.{Trans, tt_rd, tt_wr, tt_fill}
use tas_client_api.Rw.State.{Rw, rw_start}
use tas_client_api.Rw.Limits.{check_limits}
use tas_client_api.Rw.Split.{Cursor}
use tas_client_api.Rw.Request.{
  accepts, note_trans, note_fill, rw_add_rd, rw_add_wr, rw_add_fill, rw_add_trans, resume_trans,
  set_trans_loop, rw_set_trans,
}
use tas_client_api.Rw.Laws.{pl0_list, rw_list}

-- A result is no refusal, or the refusal leaves `r`.
abbrev IsClean : Rw → Option (Bool × Rw) → Type 0
IsClean r o = (r' : Rw) → o ≡ some (false, r') → r' ≡ r

note_trans-IsClean : (r : Rw) (a n ty d : ℕ) (o : Option Cursor) → IsClean r (note_trans a n ty d o)
note_trans-IsClean r a n ty d none r' h = absurd (none-ne h)
note_trans-IsClean r a n ty d (some c) r' h = absurd (tf (ap (λ x. x.0) (some-inj h)))
  where
    tf : true ≢ false
    tf e = cc

note_fill-IsClean : (r : Rw) (a n : ℕ) (o : Option Rw) → IsClean r (note_fill a n o)
note_fill-IsClean r a n none r' h = absurd (none-ne h)
note_fill-IsClean r a n (some c) r' h = absurd (tf (ap (λ x. x.0) (some-inj h)))
  where
    tf : true ≢ false
    tf e = cc

refused-IsClean : (r : Rw) → IsClean r (some (false, r))
refused-IsClean r r' h = sym (ap (λ x. x.1) (some-inj h))

rw_add_rd-IsClean : (fuel : ℕ) (r : Rw) (a n d am m : ℕ) → IsClean r (rw_add_rd fuel r a n d am m)
unfolding rw_add_rd
rw_add_rd-IsClean fuel r a n d am m =
    if-lem (IsClean r) (accepts r n n 0 m) (λ h. note_trans-IsClean r a n tt_rd d _)
      (λ h. refused-IsClean r)

rw_add_wr-IsClean :
    (host : Mem ℕ) (fuel : ℕ) (r : Rw) (a n d am m : ℕ)
    → IsClean r (rw_add_wr host fuel r a n d am m)
unfolding rw_add_wr
rw_add_wr-IsClean host fuel r a n d am m =
    if-lem (IsClean r) (accepts r n 0 n m) (λ h. note_trans-IsClean r a n tt_wr d _)
      (λ h. refused-IsClean r)

rw_add_fill-IsClean :
    (fuel : ℕ) (r : Rw) (a n v am m : ℕ) → IsClean r (rw_add_fill fuel r a n v am m)
unfolding rw_add_fill
rw_add_fill-IsClean fuel r a n v am m =
    if-lem (IsClean r) (a % 8 != 0 || n == 0 || n % 8 != 0 || am != 0 || leb AddrMap.am12 m)
      (λ h. refused-IsClean r)
      (λ h.
        if-lem (IsClean r) (check_limits r 0 n) (λ h. note_fill-IsClean r a n _)
          (λ h. refused-IsClean r))

-- A transaction that is refused, be it a read, a write, a fill or of no known type, leaves the object
-- as it was: no packet and no note of it, and no counter moved.
pub rw_add_trans-IsClean :
    (host : Mem ℕ) (r : Rw) (t : Trans) (r' : Rw)
    → rw_add_trans host r t ≡ some (false, r')
    → r' ≡ r
unfolding rw_add_trans
rw_add_trans-IsClean host r t =
    if-lem (IsClean r) (t.type == tt_rd) (λ h. rw_add_rd-IsClean _ r _ _ _ _ _)
      (λ h.
        if-lem (IsClean r) (t.type == tt_wr) (λ h. rw_add_wr-IsClean host _ r _ _ _ _ _)
          (λ h.
            if-lem (IsClean r) (t.type == tt_fill) (λ h. rw_add_fill-IsClean _ r _ _ _ _ _)
              (λ h. refused-IsClean r)))

-- No transaction, and a request and a response of nothing but the headers of a first packet, which
-- begins at the first word, has no transaction and has selected nothing.
pub record IsEmpty (r : Rw) : Type 0 where
  pub pl0 : pl0_list r ≡ []
  pub rw : rw_list r ≡ []
  pub packets : r.num_pl2_pkt ≡ 0
  pub first : (r.pl2_hdr_wi ≡ 0) × (r.pl0_start ≡ 1)
  pub request : r.rq_buf_wi ≡ 3
  pub headers : entries r.rq_buf 0 3 ≡ 0 ∷ 0 ∷ 0 ∷ []
  pub response : (r.pl2_rsp_pkt_start ≡ 0) × (r.rsp_size ≡ 4 + Size.pl1rsp_pl0_start)
  pub selected : (r.pl2_num_trans ≡ 0) × (r.pl0_acc_mode ≡ 0) × (r.pl0_addr_map ≡ 0)
  pub base : (r.pl0_addr_map_mask ≡ 0) × (r.pl0_base_addr ≡ 0)
  pub fresh : r.get_pkt_rq_was_called ≡ false

rw_start-IsEmpty : (r : Rw) → IsEmpty (rw_start r)
unfolding rw_start entries
rw_start-IsEmpty r = record {
  pl0 = refl;
  rw = refl;
  packets = refl;
  first = (refl, refl);
  request = refl;
  headers = refl;
  response = (refl, refl);
  selected = (refl, refl, refl);
  base = (refl, refl);
  fresh = refl;
}

set_trans_loop-IsEmpty :
    (host : Mem ℕ) (succ : Bool) (r r' : Rw) (ts : List Trans)
    → (succ ≡ false → IsEmpty r)
    → set_trans_loop host succ r ts ≡ some (false, r')
    → IsEmpty r'
unfolding set_trans_loop
set_trans_loop-IsEmpty host succ r r' [] h eq =
    subst IsEmpty (ap (λ x. x.1) (some-inj eq)) (h (ap (λ x. x.0) (some-inj eq)))
set_trans_loop-IsEmpty host succ r r' (t ∷ ts) h eq =
    resumed (rw_add_trans host r t) (λ x. set_trans_loop-IsEmpty host true x r' ts (λ e. cc)) eq
  where
    resumed :
        (o : Option (Bool × Rw))
        → ((x : Rw) → set_trans_loop host true x ts ≡ some (false, r') → IsEmpty r')
        → resume_trans (λ x. set_trans_loop host true x ts) o ≡ some (false, r')
        → IsEmpty r'
    resumed none rest eq = absurd (none-ne eq)
    resumed (some (true, x)) rest eq = rest x eq
    resumed (some (false, x)) rest eq =
        subst IsEmpty (ap (λ y. y.1) (some-inj eq)) (rw_start-IsEmpty x)

-- All or nothing: when `rw_set_trans` returns `false`, be it since one transaction is refused or
-- since there is none, nothing is left of the transactions that were added before the refusal: no PL0
-- transaction and no transaction of the caller is noted, no packet is counted, and the request and
-- the response have only the headers of a first packet, which has selected nothing.
pub rw_set_trans-IsEmpty :
    (host : Mem ℕ) (r : Rw) (ts : List Trans) (r' : Rw)
    → rw_set_trans host r ts ≡ some (false, r')
    → IsEmpty r'
unfolding rw_set_trans
rw_set_trans-IsEmpty host r ts r' eq =
    set_trans_loop-IsEmpty host false (rw_start r) r' ts (λ e. rw_start-IsEmpty r) eq
