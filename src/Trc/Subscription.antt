-- ===== src/Trc/Subscription.antt =====
-- The branches of `set_pkt_rsp_subscribe` (src/tas_client/tas_pkt_handler_trc.cpp).
use tas_client_api.Prelude.{
  ℕ, ◌≡◌, ◌≤◌, refl, ◌⊎◌, inl, inr, arith, Mem, true, byte0, byte1, byte2, byte3, ltb, ◌==◌, ◌!=◌,
  ◌||◌, if-lem,
}
use tas_client_api.Pkt.Cmd
use tas_client_api.Pkt.Err
use tas_client_api.ErrorInfo.{is_err, ErrorInfo, no_error}
use tas_client_api.Base.Errors.{err_connection_protocol}
use tas_client_api.Chl.Handler.{chso_default, chso_exclusive}
use tas_client_api.Trc.Handler.{
  Trc, TrcSubscribed, no_trace, err_trace_claimed, subscribe_error, take_trace,
  set_pkt_rsp_subscribe,
}

-- The answer to the subscription of the handler's stream that succeeds.
pub record IsTraceGrant (pkt : Mem ℕ) (t : Trc) : Type 0 where
  pub length : pkt 0 ≡ 12
  pub wl : byte0 (pkt 1) ≡ 1
  pub command : byte1 (pkt 1) ≡ Cmd.pl1_trc_subscribe
  pub err : byte3 (pkt 1) ≡ Err.pl_no_error
  pub own : byte1 (pkt 2) ≡ t.stream
  pub option : byte0 (pkt 2) ≤ chso_exclusive

-- Either an error is returned and noted, the trace type stays `trct` and the option is the default;
-- or none is noted, and the two are those of the packet, for which `Q` holds.
abbrev pub IsTraceOutcome : Mem ℕ → ℕ → Trc → Type 0 → TrcSubscribed → Type 0
IsTraceOutcome pkt trct t Q s =
    (s.ret ≡ s.handler.ei.tas_err)
    × (((is_err s.ret ≡ true) × (s.trct ≡ trct) × (s.chso ≡ chso_default))
        ⊎ ((s.handler ≡ record t { ei = no_error })
            × (s.trct ≡ byte2 (pkt 2))
            × (s.chso ≡ byte0 (pkt 2))
            × Q))

subscribe_error-err : (err stream : ℕ) → is_err (subscribe_error err stream).tas_err ≡ true
unfolding subscribe_error err_trace_claimed
subscribe_error-err err stream =
    if-lem E (err == Err.pl1_cmd_failed) (λ h. if-lem E (stream == 0) (λ h. refl) (λ h. refl))
      (λ h. if-lem E (err == Err.pl_not_supported) (λ h. refl) (λ h. refl))
  where
    E : ErrorInfo → Type 0
    E ei = is_err ei.tas_err ≡ true

-- A refusal is an outcome.
refused_trace :
    (pkt : Mem ℕ) (trct : ℕ) (t : Trc) (Q : Type 0) (ei : ErrorInfo)
    → is_err ei.tas_err ≡ true
    → IsTraceOutcome pkt trct t Q (no_trace ei trct t)
refused_trace pkt trct t Q ei e = (refl, inl (e, refl, refl))

take_trace-Outcome :
    (pkt : Mem ℕ) (trct : ℕ) (t : Trc)
    → pkt 0 ≡ 12
    → byte0 (pkt 1) ≡ 1
    → byte1 (pkt 1) ≡ Cmd.pl1_trc_subscribe
    → IsTraceOutcome pkt trct t (IsTraceGrant pkt t) (take_trace pkt trct t)
unfolding take_trace
take_trace-Outcome pkt trct t len wl command =
    if-lem P (byte1 (pkt 2) != t.stream) (λ h. bad err_connection_protocol refl)
      (λ own.
        if-lem P (ltb chso_exclusive (byte0 (pkt 2))) (λ h. bad err_connection_protocol refl)
          (λ opt.
            if-lem P (byte3 (pkt 1) != Err.pl_no_error)
              (λ h.
                bad (subscribe_error (byte3 (pkt 1)) t.stream)
                  (subscribe_error-err (byte3 (pkt 1)) t.stream))
              (λ ok. (
                refl,
                inr (
                  refl,
                  refl,
                  refl,
                  record {
                    length = len;
                    wl = wl;
                    command = command;
                    err = ground arith;
                    own = ground arith;
                    option = ground arith;
                  },
                ),
              ))))
  where
    P : TrcSubscribed → Type 0
    P = IsTraceOutcome pkt trct t (IsTraceGrant pkt t)

    bad : (ei : ErrorInfo) → is_err ei.tas_err ≡ true → P (no_trace ei trct t)
    bad = refused_trace pkt trct t (IsTraceGrant pkt t)

-- On every branch of `set_pkt_rsp_subscribe` of the trace handler the code returned is the one noted.
-- Either it is an error, the caller's trace type is left as it was and the option is the default; or
-- no error is noted, nothing else of the handler changes, and the trace type and the option are those
-- of the packet, which has the length and the header of the answer and no error, is about the
-- handler's stream and has an option that exists.
pub set_pkt_rsp_subscribe-TraceOutcome :
    (pkt : Mem ℕ) (trct : ℕ) (t : Trc)
    → IsTraceOutcome pkt trct t (IsTraceGrant pkt t) (set_pkt_rsp_subscribe pkt trct t)
unfolding set_pkt_rsp_subscribe
set_pkt_rsp_subscribe-TraceOutcome pkt trct t =
    if-lem P (pkt 0 != 12) (λ h. bad)
      (λ len.
        if-lem P (byte1 (pkt 1) != Cmd.pl1_trc_subscribe || byte0 (pkt 1) != 1) (λ h. bad)
          (λ head. take_trace-Outcome pkt trct t (ground arith) (ground arith) (ground arith)))
  where
    P : TrcSubscribed → Type 0
    P = IsTraceOutcome pkt trct t (IsTraceGrant pkt t)

    bad : P (no_trace err_connection_protocol trct t)
    bad = refused_trace pkt trct t (IsTraceGrant pkt t) err_connection_protocol refl
