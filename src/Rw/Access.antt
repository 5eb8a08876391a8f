-- ===== src/Rw/Access.antt =====
-- A read or a write of the caller as a whole, within the arrays and the buffer of the object
-- (src/tas_client/tas_pkt_handler_rw.cpp).
use tas_client_api.Prelude.{
  ℕ, ◌+◌, ◌-◌, ◌^◌, ◌≤◌, ◌<◌, ◌≡◌, ◌⊎◌, ap, sym, ◌∙◌, Bool, true, false, Option, some, some-inj,
  Mem, arith, if◌then◌else◌,
}
use tas_client_api.Rw.Trans.{tt_rd, tt_wr}
use tas_client_api.Rw.State.{Rw}
use tas_client_api.Rw.Request.{effective_map, accepts, rw_add_rd, rw_add_wr}
use tas_client_api.Rw.Frame.{limits}
use tas_client_api.Rw.Open.{IsOpen, rq_limit}
use tas_client_api.Rw.Packets.{StaysOpen, cost, rw_add_rd-StaysOpen, rw_add_wr-StaysOpen}
use tas_client_api.Rw.AddAccess.{CanTake, Added, rw_add_rd-Added, rw_add_wr-Added}

-- The object can take an access of `n` bytes at `a` from a buffer at `d`: no address wraps; the server
-- allows transactions, and the arrays have a place for each byte and for the access; and the packet
-- that is open has, before the end of the buffer, the words that the access may cost.
pub record HasRoom (r : Rw) (a n d : ℕ) : Type 0 where
  pub a_fits : a + n ≤ 2 ^ 64
  pub d_fits : d + n ≤ 2 ^ 64
  pub allowed : 0 < r.con_info.pl0_max_num_rw
  pub places : r.num_trans_max < 2 ^ 32
  pub pl0_fits : r.pl0_num_trans + n ≤ r.num_trans_max
  pub rw_fits : r.rw_num_trans + 1 ≤ r.num_trans_max
  pub words : r.rq_wi_max < 2 ^ 29
  pub is_open : IsOpen (rq_limit (limits r)) (2 ^ 29 - r.rq_wi_max + cost n) r

-- What the access leaves: its packets and its note, within the arrays and within the buffer.
pub record Taken (r r' : Rw) (type a n d am m : ℕ) : Type 0 where
  pub added : Added r r' type a n d am m
  pub pl0_inside : r'.pl0_num_trans ≤ r.num_trans_max
  pub rw_inside : r'.rw_num_trans ≤ r.num_trans_max
  pub rq_inside : r'.rq_buf_wi < r.rq_wi_max

can_take : (r : Rw) (a n d : ℕ) → HasRoom r a n d → CanTake r a n d
can_take r a n d h = record {
  conf = h.is_open.conf;
  a_fits = h.a_fits;
  d_fits = h.d_fits;
  pl0_fits = omega (arith, h.pl0_fits, h.places);
  rw_fits = omega (arith, h.rw_fits, h.places);
}

both :
    (r : Rw) (type a n d am m max : ℕ) (o : Option (Bool × Rw))
    → HasRoom r a n d
    → (r' : Rw) × (o ≡ some (true, r')) × Added r r' type a n d am m
    → StaysOpen max (2 ^ 29 - r.rq_wi_max) o
    → (r' : Rw) × (o ≡ some (true, r')) × Taken r r' type a n d am m
both r type a n d am m max o h (r', e, added) (t, r2, e2, o2) =
    let same : r2.rq_buf_wi ≡ r'.rq_buf_wi = ap (λ x. x.1.rq_buf_wi) (some-inj (sym e2 ∙ e)) in
    (
      r',
      e,
      record {
        added = added;
        pl0_inside = omega (arith, added.pl0_count, h.pl0_fits);
        rw_inside = omega (arith, added.rw_count, h.rw_fits);
        rq_inside = omega (arith, o2.room, same, h.words);
      },
    )

-- `rw_add_wr`, or else `rw_add_rd`.
abbrev pub rw_add_access : Bool → Mem ℕ → ℕ → Rw → ℕ → ℕ → ℕ → ℕ → ℕ → Option (Bool × Rw)
rw_add_access true host fuel r a n d am m = rw_add_wr host fuel r a n d am m
rw_add_access false host fuel r a n d am m = rw_add_rd fuel r a n d am m

abbrev pub type_of : Bool → ℕ
type_of is_write = if is_write then tt_wr else tt_rd

-- A read, or a write where packets may have 1060 bytes, that passes the checks of `rw_add_rd` or
-- `rw_add_wr` is added completely, if the object has an open packet and room for it: no address
-- wraps, the server allows transactions, and there are a place in the arrays, of less than 2^32, for
-- each byte and for the access, and, before the end of the buffer, of less than 2^29 words, 24 words
-- for each byte and 12 more. With fuel for each byte the call returns
-- `true`, and the PL0 transactions that it appends make up the `n` bytes from the address on, in order
-- and without gap or overlap, each of a size and an alignment that a PL0 command exists for, with the
-- access mode and the address map of the call and its part of the buffer; one transaction of the
-- caller is noted; and neither the transactions leave the arrays nor the request the buffer.
pub rw_add_access-Taken :
    (is_write : Bool) (host : Mem ℕ) (fuel : ℕ) (r : Rw) (a n d am m : ℕ)
    → HasRoom r a n d
    → (is_write ≡ false) ⊎ (1060 ≤ rq_limit (limits r))
    → accepts r n (if is_write then 0 else n) (if is_write then n else 0) m ≡ true
    → n + 1 < fuel
    → (r' : Rw) × (rw_add_access is_write host fuel r a n d am m ≡ some (true, r'))
      × Taken r r' (type_of is_write) a n d am (effective_map m)
rw_add_access-Taken true host fuel r a n d am m h large ok enough =
    both r tt_wr a n d am (effective_map m) (rq_limit (limits r)) _ h
      (rw_add_wr-Added host fuel r a n d am m (can_take r a n d h) ok enough)
      (rw_add_wr-StaysOpen host (rq_limit (limits r)) (2 ^ 29 - r.rq_wi_max) fuel r a n d am m
        (ground (arith, large)) h.is_open enough)
rw_add_access-Taken false host fuel r a n d am m h large ok enough =
    both r tt_rd a n d am (effective_map m) (rq_limit (limits r)) _ h
      (rw_add_rd-Added fuel r a n d am m (can_take r a n d h) ok enough)
      (rw_add_rd-StaysOpen (rq_limit (limits r)) (2 ^ 29 - r.rq_wi_max) fuel r a n d am m h.is_open
        enough)
