-- ===== src/Client/Keeps.antt =====
-- What the calls of CTasClientChl leave of its subscription (src/tas_client/tas_client_chl.cpp).
use tas_client_api.Prelude.{ℕ, ◌≡◌, refl, Bool, ◌&&◌, not, Mem, ltb, ◌!=◌, if-lem}
use tas_client_api.Pkt.Size
use tas_client_api.ErrorInfo.{TasReturn, is_err}
use tas_client_api.Chl.Handler.{
  Received, cht_send, cht_rcv, cht_bidi, get_pkt_send_msg, set_pkt_rcv_msg,
}
use tas_client_api.Client.MailboxIf.{Reply, MailboxIf}
use tas_client_api.Client.Chl.{ClientChl, Message, with_mailbox, chl_handler}
use tas_client_api.Client.Messages.{
  full_length, take_message, send_msg, rcv_msg, device_reset_occurred,
}

module _ {M : Type 0} where
  -- The fields of the subscription stay.
  pub record IsKept (k d : ClientChl M) : Type 0 where
    pub cht : d.chl_cht ≡ k.chl_cht
    pub num : d.chl_num ≡ k.chl_num
    pub active : d.con.rcv_chl_active ≡ k.con.rcv_chl_active

  take_message-Kept : (r : Received) (k : ClientChl M) → IsKept k (take_message r k).client
  unfolding take_message
  take_message-Kept r k =
      if-lem (λ (m : Message M). IsKept k m.client) (is_err r.ret)
        (λ h. record { cht = refl; num = refl; active = refl })
        (λ h.
          if-lem (λ (m : Message M). IsKept k m.client) (ltb k.con_info.msg_length_d2c r.msg_length)
            (λ h. record { cht = refl; num = refl; active = refl })
            (λ h. record { cht = refl; num = refl; active = refl }))

  pub device_reset_occurred-Kept : (k : ClientChl M) → IsKept k (device_reset_occurred k).1
  unfolding device_reset_occurred
  device_reset_occurred-Kept k =
      if-lem P (not k.con.session_started) (λ h. record { cht = refl; num = refl; active = refl })
        (λ h.
          if-lem P (ltb k.tph_chl.device_reset_count k.con.device_reset_count)
            (λ h. record { cht = refl; num = refl; active = refl })
            (λ h. record { cht = refl; num = refl; active = refl }))
    where
      P : Bool × ClientChl M → Type 0
      P x = IsKept k x.1

module _ {M : Type 0} (mb_if : MailboxIf M) where
  pub send_msg-Kept :
      (host : Mem ℕ) (msg msg_length init : ℕ) (k : ClientChl M)
      → IsKept k (send_msg mb_if host msg msg_length init k).1
  unfolding send_msg get_pkt_send_msg
  send_msg-Kept host msg msg_length init k =
      if-lem P (k.chl_cht != cht_send && k.chl_cht != cht_bidi)
        (λ h. record { cht = refl; num = refl; active = refl })
        (λ h.
          if-lem P (ltb k.con_info.msg_length_c2d (full_length msg_length init))
            (λ h. record { cht = refl; num = refl; active = refl })
            (λ h.
              if-lem P sent.0 (λ h. record { cht = refl; num = refl; active = refl })
                (λ h. record { cht = refl; num = refl; active = refl })))
    where
      P : TasReturn × ClientChl M → Type 0
      P x = IsKept k x.1

      sent : Bool × M
      sent =
          mb_if.send (get_pkt_send_msg host k.chl_num msg msg_length init (chl_handler k)).rq_buf 1
            k.con.mailbox

  pub rcv_msg-Kept :
      (timeout_ms : ℕ) (stack : Mem ℕ) (k : ClientChl M)
      → IsKept k (rcv_msg mb_if timeout_ms stack k).client
  unfolding rcv_msg
  rcv_msg-Kept timeout_ms stack k =
      if-lem P (k.chl_cht != cht_rcv && k.chl_cht != cht_bidi)
        (λ h. record { cht = refl; num = refl; active = refl })
        (λ h.
          if-lem P r.ret
            (λ h.
              kept (
                take_message-Kept (set_pkt_rcv_msg r.rsp k.chl_num (chl_handler received))
                  received))
            (λ h. record { cht = refl; num = refl; active = refl }))
    where
      P : Message M → Type 0
      P m = IsKept k m.client

      r : Reply M
      r = mb_if.receive stack (mb_if.config timeout_ms Size.pl1_chl_max_msg_size k.con.mailbox)

      received : ClientChl M
      received = with_mailbox r.mailbox k

      kept : {d : ClientChl M} → IsKept received d → IsKept k d
      kept h = record { cht = h.cht; num = h.num; active = h.active }
