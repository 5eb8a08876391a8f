-- ===== src/Trc/Examples.antt =====
-- Tests of the trace packets, and the theorems at concrete inputs.
use tas_client_api.Prelude.{ℕ, ◌≡◌, refl, Mem, [], ◌∷◌, get_or, entries}
use tas_client_api.ErrorInfo.{no_error, err_none, err_fn_usage}
use tas_client_api.Trc.Handler.{
  Trc, construct, get_pkt_rq_subscribe, get_pkt_rq_unsubscribe, set_pkt_rsp_subscribe, take_trace,
  subscribe_error, err_trace_claimed, set_pkt_rsp_unsubscribe, set_pkt_rcv_trace,
}
use tas_client_api.Trc.Tracing.{IsTracing, set_pkt_rcv_trace-Outcome}

abbrev zeros : Mem ℕ
zeros i = 0

abbrev handler : Trc
handler = construct no_error zeros 0 0

abbrev subscribing : Trc
subscribing = get_pkt_rq_subscribe 5 1 handler

asked : entries subscribing.rq_buf 0 3 ≡ 12 ∷ 0xd001 ∷ 0x0501 ∷ []
unfolding entries get_pkt_rq_subscribe
asked = refl

-- The grant of stream 5, of an MTSC trace, and the refusal of it.
abbrev grant : Mem ℕ
grant i = get_or (12 ∷ 0x0800_d001 ∷ 0x0001_0501 ∷ []) i 0

abbrev claimed : Mem ℕ
claimed i = get_or (12 ∷ 0x2000_d001 ∷ 0x0001_0501 ∷ []) i 0

granted : (set_pkt_rsp_subscribe grant 0 subscribing).trct ≡ 1
unfolding set_pkt_rsp_subscribe take_trace get_pkt_rq_subscribe
granted = refl

-- Stream 5 is claimed by another client.
usage : (set_pkt_rsp_subscribe claimed 0 subscribing).ret ≡ err_fn_usage
unfolding set_pkt_rsp_subscribe take_trace subscribe_error err_trace_claimed get_pkt_rq_subscribe
usage = refl

abbrev unsubscribing : Trc
unsubscribing = get_pkt_rq_unsubscribe 5 handler

-- The answer to it.
abbrev ended : Mem ℕ
ended i = get_or (8 ∷ 0x0805_d200 ∷ []) i 0

unsubscribed : (set_pkt_rsp_unsubscribe ended unsubscribing).0 ≡ err_none
unfolding set_pkt_rsp_unsubscribe get_pkt_rq_unsubscribe
unsubscribed = refl

-- Eight words of stream 5, after a reset.
abbrev trace : Mem ℕ
trace i = get_or (40 ∷ 0x0305_d400 ∷ []) i 0

set_pkt_rcv_trace-Outcome_example : IsTracing trace handler (set_pkt_rcv_trace trace handler)
set_pkt_rcv_trace-Outcome_example = set_pkt_rcv_trace-Outcome trace handler
