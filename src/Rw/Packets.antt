-- ===== src/Rw/Packets.antt =====
-- The PL2 packets of a whole request of reads and writes (src/tas_client/tas_pkt_handler_rw.cpp).
use tas_client_api.Prelude.{
  ℕ, ◌+◌, ◌*◌, ◌^◌, ◌≤◌, ◌<◌, ◌≡◌, refl, true, false, Bool, arith, if-lem, Option, some, [], Mem,
}
use tas_client_api.Rw.Trans.{tt_rd, tt_wr}
use tas_client_api.Rw.State.{Rw, rw_start}
use tas_client_api.Rw.Split.{Steps, split}
use tas_client_api.Rw.Request.{
  effective_map, finalize_if, prepare_rd, prepare_wr, rd_steps, wr_steps, accepts, push_rw_trans,
  note_trans, rw_add_rd, rw_add_wr,
}
use tas_client_api.Rw.Frame.{limits}
use tas_client_api.Rw.StepsIf.{IsConfigured, StepsLaws}
use tas_client_api.Rw.Steps.{rd_steps-StepsLaws, wr_steps-StepsLaws}
use tas_client_api.Rw.Open.{IsOpen, rq_limit, pkt_finalize-IsOpen}
use tas_client_api.Rw.Opening.{IsOpen-weaken}
use tas_client_api.Rw.Adding.{pkt_add_rd-IsOpen, pkt_add_wr-IsOpen}
use tas_client_api.Rw.Opened.{KeepsOpen, split-Opens}

-- The first packet.
pub rw_start-IsOpen :
    (b : ℕ) (r : Rw)
    → IsConfigured (limits (rw_start r))
    → b + 4 < 2 ^ 29
    → IsOpen (rq_limit (limits (rw_start r))) b (rw_start r)
unfolding rw_start
rw_start-IsOpen b r conf room = record {
  conf = conf;
  limit = refl;
  room = omega arith;
  closed = [];
  chain = refl;
  sized = tt;
  count = refl;
  few = omega arith;
  start = refl;
  got = refl;
  behind = omega arith;
  fits = ground (arith, conf.rq_pkt, conf.rq_buf);
}

finalize_if-IsOpen :
    (max b : ℕ) (t : Bool) (r : Rw) → IsOpen max (b + 4) r → IsOpen max b (finalize_if t r)
finalize_if-IsOpen max b t r o =
    if-lem (IsOpen max b) t (λ h. pkt_finalize-IsOpen max b r o)
      (λ h. IsOpen-weaken max (b + 4) b r (omega arith) o)

prepare_rd-IsOpen :
    (max b : ℕ) (r : Rw) (a n m : ℕ) → IsOpen max (b + 4 + 4) r → IsOpen max b (prepare_rd r a n m)
unfolding prepare_rd
prepare_rd-IsOpen max b r a n m o =
    finalize_if-IsOpen max b _ _ (finalize_if-IsOpen max (b + 4) _ r o)

prepare_wr-IsOpen :
    (max b : ℕ) (r : Rw) (a n m : ℕ) → IsOpen max (b + 4 + 4) r → IsOpen max b (prepare_wr r a n m)
unfolding prepare_wr
prepare_wr-IsOpen max b r a n m o =
    finalize_if-IsOpen max b _ _ (finalize_if-IsOpen max (b + 4) _ r o)

push_rw_trans-IsOpen :
    (max b : ℕ) (r : Rw) (a n type d : ℕ)
    → IsOpen max b r
    → IsOpen max b (push_rw_trans r a n type d)
unfolding push_rw_trans
push_rw_trans-IsOpen max b r a n type d o = record {
  conf = record {
    rq_pkt = o.conf.rq_pkt;
    rsp_pkt = o.conf.rsp_pkt;
    rq_buf = o.conf.rq_buf;
    rq_small = o.conf.rq_small;
    rsp_buf = o.conf.rsp_buf;
    wr_min = o.conf.wr_min;
    wr_max = o.conf.wr_max;
    rd_min = o.conf.rd_min;
    rd_max = o.conf.rd_max;
  };
  limit = o.limit;
  room = o.room;
  closed = o.closed;
  chain = o.chain;
  sized = o.sized;
  count = o.count;
  few = o.few;
  start = o.start;
  got = o.got;
  behind = o.behind;
  fits = o.fits;
}

-- A call returns, and leaves an open packet, with `b` words to spare.
abbrev pub StaysOpen : ℕ → ℕ → Option (Bool × Rw) → Type 0
StaysOpen max b o = (t : Bool) × (r : Rw) × (o ≡ some (t, r)) × IsOpen max b r

-- The words that a transaction may cost.
abbrev pub cost : ℕ → ℕ
cost n = 24 * n + 12

access-StaysOpen :
    (s : Steps) (type am m max b : ℕ)
    → StepsLaws s am m type
    → KeepsOpen s max
    → (fuel : ℕ) (r : Rw) (a n d : ℕ) → IsOpen max (24 * n + 4 + b) r
    → n < 2 ^ 32
    → n + 1 < fuel
    → StaysOpen max b
        (note_trans a n type d (split s fuel (record { rw = r; a = a; nb = n; d = d })))
access-StaysOpen s type am m max b law keeps fuel r a n d o small enough =
    let (c, e, o') =
      split-Opens s am m type max b law keeps fuel (record { rw = r; a = a; nb = n; d = d })
        (small, o) enough in
    (
      true,
      push_rw_trans c.rw a n type d,
      rw e refl,
      push_rw_trans-IsOpen max b c.rw a n type d
          (IsOpen-weaken max (24 * c.nb + 4 + b) b c.rw (omega arith) o'.1),
    )

-- A refusal leaves the object.
pub refused-StaysOpen :
    (max b n : ℕ) (r : Rw) → IsOpen max (b + cost n) r → StaysOpen max b (some (false, r))
refused-StaysOpen max b n r o = (false, r, refl, IsOpen-weaken max (b + cost n) b r (omega arith) o)

pub rw_add_rd-StaysOpen :
    (max b fuel : ℕ) (r : Rw) (a n d am m : ℕ)
    → IsOpen max (b + cost n) r
    → n + 1 < fuel
    → StaysOpen max b (rw_add_rd fuel r a n d am m)
unfolding rw_add_rd
rw_add_rd-StaysOpen max b fuel r a n d am m o enough =
    if-lem (StaysOpen max b) (accepts r n n 0 m)
      (λ h.
        access-StaysOpen (rd_steps am (effective_map m)) tt_rd am (effective_map m) max b
          (rd_steps-StepsLaws am (effective_map m))
          (λ b' x a' n' d' most o'.
            pkt_add_rd-IsOpen max b' x a' n' d' am (effective_map m)
              (IsOpen-weaken max (b' + 20 + n') (b' + 20) x (omega arith) o'))
          fuel (prepare_rd r a n m) a n d
          (prepare_rd-IsOpen max (24 * n + 4 + b) r a n m
            (IsOpen-weaken max (b + cost n) (24 * n + 4 + b + 4 + 4) r (omega arith) o))
          (omega (arith, o.room)) enough)
      (λ h. refused-StaysOpen max b n r o)

pub rw_add_wr-StaysOpen :
    (host : Mem ℕ) (max b fuel : ℕ) (r : Rw) (a n d am m : ℕ)
    → 1060 ≤ max
    → IsOpen max (b + cost n) r
    → n + 1 < fuel
    → StaysOpen max b (rw_add_wr host fuel r a n d am m)
unfolding rw_add_wr
rw_add_wr-StaysOpen host max b fuel r a n d am m large o enough =
    if-lem (StaysOpen max b) (accepts r n 0 n m)
      (λ h.
        access-StaysOpen (wr_steps host am (effective_map m)) tt_wr am (effective_map m) max b
          (wr_steps-StepsLaws host am (effective_map m))
          (λ b' x a' n' d' most o'.
            pkt_add_wr-IsOpen host max b' x a' n' d' am (effective_map m) most large o')
          fuel (prepare_wr r a n m) a n d
          (prepare_wr-IsOpen max (24 * n + 4 + b) r a n m
            (IsOpen-weaken max (b + cost n) (24 * n + 4 + b + 4 + 4) r (omega arith) o))
          (omega (arith, o.room)) enough)
      (λ h. refused-StaysOpen max b n r o)
