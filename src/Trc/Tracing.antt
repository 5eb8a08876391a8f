-- ===== src/Trc/Tracing.antt =====
-- The branches of `set_pkt_rcv_trace` (src/tas_client/tas_pkt_handler_trc.cpp).
use tas_client_api.Prelude.{
  ℕ, ◌%◌, ◌≡◌, ◌≤◌, refl, ◌⊎◌, inl, inr, arith, Mem, true, byte0, byte1, byte2, byte3, ltb, ◌!=◌,
  ◌||◌, if-lem, none,
}
use tas_client_api.Pkt.Cmd
use tas_client_api.Pkt.Size
use tas_client_api.ErrorInfo.{is_err, no_error}
use tas_client_api.Base.Errors.{err_connection_protocol}
use tas_client_api.Trc.Handler.{Trc, Traced, traced, set_pkt_rcv_trace, trcs_cont, trcs_start_ai}

-- A packet with trace data.
pub record IsTraceData (pkt : Mem ℕ) : Type 0 where
  pub whole : pkt 0 % 4 ≡ 0
  pub least : 40 ≤ pkt 0
  pub most : pkt 0 ≤ Size.pl2_max_pkt_size
  pub wl : byte0 (pkt 1) ≡ 0
  pub command : byte1 (pkt 1) ≡ Cmd.pl1_trc_data
  pub state : byte3 (pkt 1) ≤ trcs_start_ai

-- No data comes. Either an error is returned, with a state and a stream that mean none; or those of the packet.
abbrev pub IsTracing : Mem ℕ → Trc → Traced → Type 0
IsTracing pkt t r =
    (r.ret ≡ r.handler.ei.tas_err)
    × ((r.data_at ≡ none) × (r.length ≡ 0))
    × (((is_err r.ret ≡ true) × (r.trcs ≡ trcs_cont) × (r.stream ≡ 0xFF))
        ⊎ ((r.handler ≡ record t { ei = no_error })
            × (r.trcs ≡ byte3 (pkt 1))
            × (r.stream ≡ byte2 (pkt 1))
            × IsTraceData pkt))

-- On every branch of `set_pkt_rcv_trace` the code returned is the one noted, and the caller gets no
-- data: a null pointer and the length 0. Either the code is an error, and the stream's state and
-- number are the initial ones; or no error is noted, nothing else of the handler changes, and the
-- two are those of the packet, which is of whole words, of at least 40 bytes and at most the size
-- of a PL2 packet, has the header of trace data and a state that exists.
pub set_pkt_rcv_trace-Outcome : (pkt : Mem ℕ) (t : Trc) → IsTracing pkt t (set_pkt_rcv_trace pkt t)
unfolding set_pkt_rcv_trace
set_pkt_rcv_trace-Outcome pkt t =
    if-lem P (ltb (pkt 0) 40 || pkt 0 % 4 != 0 || ltb Size.pl2_max_pkt_size (pkt 0)) (λ h. bad)
      (λ size.
        if-lem P
          (byte1 (pkt 1) != Cmd.pl1_trc_data
            || byte0 (pkt 1) != 0
            || ltb trcs_start_ai (byte3 (pkt 1)))
          (λ h. bad)
          (λ head. (
            refl,
            (refl, refl),
            inr (
              refl,
              refl,
              refl,
              record {
                whole = ground arith;
                least = ground arith;
                most = ground arith;
                wl = ground arith;
                command = ground arith;
                state = ground arith;
              },
            ),
          )))
  where
    P : Traced → Type 0
    P = IsTracing pkt t

    bad : P (traced err_connection_protocol trcs_cont 0xFF t)
    bad = (refl, (refl, refl), inl (refl, refl, refl))
