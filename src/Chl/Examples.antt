-- ===== src/Chl/Examples.antt =====
-- Tests of the channel packets, and the theorems at concrete inputs.
use tas_client_api.Prelude.{ℕ, ◌≡◌, refl, Mem, [], ◌∷◌, get_or, entries, arith, memcpy_to_words}
use tas_client_api.ErrorInfo.{no_error, err_none}
use tas_client_api.Chl.Handler.{
  Chl, construct, get_pkt_send_msg, set_pkt_rcv_msg, get_pkt_rq_subscribe, set_pkt_rsp_subscribe,
  take_subscription,
}
use tas_client_api.Chl.Message.{echo, IsArrived, set_pkt_rcv_msg-get_pkt_send_msg}
use tas_client_api.Chl.Subscription.{IsOutcome, IsGranted, set_pkt_rsp_subscribe-Outcome}

abbrev zeros : Mem ℕ
zeros i = 0

-- The bytes 0x40, 0x41, … at address 0x40 and so on.
abbrev host : Mem ℕ
host p = p

abbrev handler : Chl
handler = construct no_error zeros

-- Five bytes on channel 3.
sent :
    entries (get_pkt_send_msg host 3 0x40 5 0 handler).rq_buf 0 5
    ≡ 20 ∷ 0xcc01 ∷ 0x0005_0003 ∷ 0x4342_4140 ∷ 0x44 ∷ []
unfolding entries get_pkt_send_msg construct memcpy_to_words
sent = refl

set_pkt_rcv_msg-get_pkt_send_msg_example :
    IsArrived host 0x40 5 7 2
      (echo (get_pkt_send_msg host 3 0x40 5 7 handler).rq_buf)
      (set_pkt_rcv_msg (echo (get_pkt_send_msg host 3 0x40 5 7 handler).rq_buf) 3 handler)
set_pkt_rcv_msg-get_pkt_send_msg_example =
    set_pkt_rcv_msg-get_pkt_send_msg host 3 0x40 5 7 2 handler handler (omega arith) (omega arith)
      (omega arith)

-- The grant of channel 3 for sending.
abbrev grant : Mem ℕ
grant i = get_or (12 ∷ 0x0800_c001 ∷ 0x0500_0103 ∷ []) i 0

abbrev subscribing : Chl
subscribing = get_pkt_rq_subscribe 3 1 0 5 handler

granted : (set_pkt_rsp_subscribe grant subscribing).ret ≡ err_none
unfolding set_pkt_rsp_subscribe take_subscription get_pkt_rq_subscribe
granted = refl

set_pkt_rsp_subscribe-Outcome_example :
    IsOutcome grant subscribing
      (IsGranted grant subscribing)
      (set_pkt_rsp_subscribe grant subscribing)
set_pkt_rsp_subscribe-Outcome_example = set_pkt_rsp_subscribe-Outcome grant subscribing
