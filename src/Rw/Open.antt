-- ===== src/Rw/Open.antt =====
-- The PL2 packets of a request under construction (src/tas_client/tas_pkt_handler_rw.cpp): those that
-- are closed form a chain, and the last is open.
use tas_client_api.Prelude.{
  ℕ, ◌+◌, ◌-◌, ◌*◌, ◌^◌, ◌≤◌, ◌<◌, ◌≡◌, ap, sym, ◌∙◌, subst, true, false, List, [], ◌∷◌, ◌++◌,
  length, length-append, All, All-append, arith,
}
use tas_client_api.Rw.State.{Rw, pkt_finalize, finalize_headers}
use tas_client_api.Rw.Limits.{lesser}
use tas_client_api.Rw.Frame.{Limits, limits, pkt_finalize-Keeps}
use tas_client_api.Rw.StepsIf.{IsConfigured}
use tas_client_api.Rw.Chain.{IsSized, IsChain, IsChain-same, IsChain-snoc}

-- The limit of a PL2 packet: the agreed size, and the buffer.
abbrev pub rq_limit : Limits → ℕ
rq_limit l = lesser l.con_info.max_pl2rq_pkt_size (l.rq_wi_max * 4)

-- The request has packets of at most `max` bytes, of which the last is open, and `b` words more keep
-- its index from wrapping.
pub record IsOpen (max b : ℕ) (r : Rw) : Type 0 where
  pub conf : IsConfigured (limits r)
  pub limit : rq_limit (limits r) ≡ max
  pub room : r.rq_buf_wi + b < 2 ^ 29
  pub closed : List ℕ
  pub chain : IsChain r.rq_buf 0 closed r.pl2_hdr_wi
  pub sized : All (IsSized max) closed
  pub count : r.num_pl2_pkt ≡ length closed
  pub few : length closed ≤ r.pl2_hdr_wi
  pub start : r.pl0_start ≡ r.pl2_hdr_wi + 1
  pub got : r.get_pkt_rq_was_called ≡ false
  pub behind : r.pl2_hdr_wi + 3 ≤ r.rq_buf_wi
  pub fits : 4 * r.rq_buf_wi + 4 ≤ 4 * r.pl2_hdr_wi + max

-- What adds words to the open packet, but leaves those before it and the bookkeeping.
pub record Writes (r r' : Rw) : Type 0 where
  pub same : limits r' ≡ limits r
  pub hdr : r'.pl2_hdr_wi ≡ r.pl2_hdr_wi
  pub num : r'.num_pl2_pkt ≡ r.num_pl2_pkt
  pub start : r'.pl0_start ≡ r.pl0_start
  pub got : r'.get_pkt_rq_was_called ≡ r.get_pkt_rq_was_called
  pub grows : r.rq_buf_wi ≤ r'.rq_buf_wi
  pub below : (k : ℕ) → k < r.pl2_hdr_wi → r'.rq_buf k ≡ r.rq_buf k

pub Writes-trans : (r r' r'' : Rw) → Writes r r' → Writes r' r'' → Writes r r''
Writes-trans r r' r'' h k = record {
  same = k.same ∙ h.same;
  hdr = k.hdr ∙ h.hdr;
  num = k.num ∙ h.num;
  start = k.start ∙ h.start;
  got = k.got ∙ h.got;
  grows = omega (arith, h.grows, k.grows);
  below = λ i. λ lt. k.below i (omega (arith, lt, h.hdr)) ∙ h.below i lt;
}

pub Writes-IsOpen :
    (max b b' : ℕ) (r r' : Rw)
    → IsOpen max b r
    → Writes r r'
    → r'.rq_buf_wi + b' < 2 ^ 29
    → 4 * r'.rq_buf_wi + 4 ≤ 4 * r.pl2_hdr_wi + max
    → IsOpen max b' r'
Writes-IsOpen max b b' r r' o w room fits = record {
  conf = subst IsConfigured (sym w.same) o.conf;
  limit = ap rq_limit w.same ∙ o.limit;
  room = room;
  closed = o.closed;
  chain =
      subst (IsChain r'.rq_buf 0 o.closed) (sym w.hdr)
        (IsChain-same max r.rq_buf r'.rq_buf 0 r.pl2_hdr_wi o.closed o.sized w.below o.chain);
  sized = o.sized;
  count = w.num ∙ o.count;
  few = omega (arith, o.few, w.hdr);
  start = w.start ∙ o.start ∙ ap (λ k. k + 1) (sym w.hdr);
  got = w.got ∙ o.got;
  behind = omega (arith, o.behind, w.grows, w.hdr);
  fits = omega (arith, fits, w.hdr);
}

-- The length that `mPktFinalize` writes.
abbrev pub open_size : Rw → ℕ
open_size r = (r.rq_buf_wi + 1 - r.pl2_hdr_wi) * 4

-- The packet that ends joins the chain.
pub finalize_headers-IsChain :
    (max b : ℕ) (r : Rw) (o : IsOpen max (b + 4) r)
    → IsChain (finalize_headers r).rq_buf 0 (o.closed ++ open_size r ∷ []) (r.rq_buf_wi + 1)
unfolding finalize_headers
finalize_headers-IsChain max b r o =
    IsChain-snoc (finalize_headers r).rq_buf 0 r.pl2_hdr_wi (open_size r) (r.rq_buf_wi + 1) o.closed
      (IsChain-same max r.rq_buf (finalize_headers r).rq_buf 0 r.pl2_hdr_wi o.closed o.sized
        (λ k. λ lt. ground (arith, o.start, o.behind, o.room)) o.chain)
      (ground (arith, o.start, o.behind, o.room)) (omega (arith, o.behind))

pub closed-IsSized :
    (max b : ℕ) (r : Rw) (o : IsOpen max (b + 4) r)
    → All (IsSized max) (o.closed ++ open_size r ∷ [])
closed-IsSized max b r o =
    All-append (IsSized max) o.closed (open_size r ∷ []) o.sized
      ((omega arith, omega (arith, o.behind), omega (arith, o.fits, o.behind)), tt)

pub IsOpen-large : (max b : ℕ) (r : Rw) → IsOpen max b r → 128 ≤ max
IsOpen-large max b r o = ground (arith, o.limit, o.conf.rq_pkt, o.conf.rq_buf)

-- The headers of the next packet stand behind the chain.
fresh_headers :
    (r : Rw) (k : ℕ)
    → r.rq_buf_wi + 4 < 2 ^ 29
    → k < r.rq_buf_wi + 1
    → (pkt_finalize true r).rq_buf k ≡ (finalize_headers r).rq_buf k
unfolding pkt_finalize
fresh_headers r k room lt = ground arith

-- A new packet behind the one that is closed, which has only its headers.
pub pkt_finalize-IsOpen :
    (max b : ℕ) (r : Rw) → IsOpen max (b + 4) r → IsOpen max b (pkt_finalize true r)
unfolding pkt_finalize
pkt_finalize-IsOpen max b r o =
    let same = ap (λ f. f.limit) (pkt_finalize-Keeps true r) in
    let large = IsOpen-large max (b + 4) r o in
    record {
      conf = subst IsConfigured (sym same) o.conf;
      limit = ap rq_limit same ∙ o.limit;
      room = omega (arith, o.room);
      closed = o.closed ++ open_size r ∷ [];
      chain =
          subst (IsChain (pkt_finalize true r).rq_buf 0 (o.closed ++ open_size r ∷ []))
            (omega (arith, o.room))
            (IsChain-same max (finalize_headers r).rq_buf (pkt_finalize true r).rq_buf 0
              (r.rq_buf_wi + 1) (o.closed ++ open_size r ∷ []) (closed-IsSized max b r o)
              (λ k. fresh_headers r k (omega (arith, o.room)))
              (finalize_headers-IsChain max b r o));
      sized = closed-IsSized max b r o;
      count =
          omega
            (arith, o.count, o.few, o.behind, o.room, length-append o.closed (open_size r ∷ []));
      few = omega (arith, o.few, o.behind, o.room, length-append o.closed (open_size r ∷ []));
      start = omega (arith, o.room);
      got = o.got;
      behind = omega (arith, o.room);
      fits = omega (arith, o.room, large);
    }
