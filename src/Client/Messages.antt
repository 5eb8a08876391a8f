-- ===== src/Client/Messages.antt =====
-- `send_msg` and `rcv_msg` of CTasClientChl (src/tas_client/tas_client_chl.cpp), and
-- `device_reset_occurred` (src/tas_client/tas_client_chl.h).
use tas_client_api.Prelude.{
  ℕ, ◌+◌, Bool, false, ◌&&◌, not, none, [], ◌∷◌, Mem, ltb, ◌==◌, ◌!=◌, if◌then◌else◌, u16,
}
use tas_client_api.Pkt.Size
use tas_client_api.ErrorInfo.{
  TasReturn, err_fn_usage, err_fn_param, err_general, err_chl_rcv, is_err, num, formatted,
  ErrorInfo, error, no_error,
}
use tas_client_api.Base.Errors.{err_server_connection}
use tas_client_api.Chl.Handler.{
  Received, cht_send, cht_rcv, cht_bidi, get_pkt_send_msg, set_pkt_rcv_msg,
}
use tas_client_api.Client.MailboxIf.{MailboxIf}
use tas_client_api.Client.Chl.{
  ClientChl, Message, with_ei, with_mailbox, with_chl, leave, chl_handler,
}

abbrev pub err_not_for_sending : ℕ → ErrorInfo
err_not_for_sending chl = record {
  info = formatted "ERROR: Channel %d not subscribed for sending messages" (num chl ∷ []);
  tas_err = err_fn_usage;
}

abbrev pub err_not_for_receiving : ℕ → ErrorInfo
err_not_for_receiving chl = record {
  info = formatted "ERROR: Channel %d not subscribed for receiving messages" (num chl ∷ []);
  tas_err = err_fn_usage;
}

abbrev pub err_too_long : ℕ → ℕ → ErrorInfo
err_too_long msg_length msg_length_c2d = record {
  info =
      formatted "ERROR: msg_length %d higher than msg_length_c2d %d"
        (num msg_length ∷ num msg_length_c2d ∷ []);
  tas_err = err_fn_param;
}

-- The length with the init word, as a `uint16_t`.
abbrev pub full_length : ℕ → ℕ → ℕ
full_length msg_length init = if init == 0 then msg_length else u16 (msg_length + 4)

module _ {M : Type 0} where
  abbrev pub after_send : ClientChl M → Bool × M → TasReturn × ClientChl M
  after_send k (sent, m) =
      if sent
      then leave no_error (with_mailbox m k)
      else leave err_server_connection (with_mailbox m k)

  abbrev pub no_message : TasReturn × ClientChl M → Message M
  no_message (ret, k) = record { ret = ret; client = k; msg = none; msg_length = 0; init = 0 }

  -- What `rcv_msg` does with a packet.
  unfoldable pub take_message : Received → ClientChl M → Message M
  take_message r k =
      let parsed = with_chl r.handler k in
      if is_err r.ret
      then no_message (parsed.con.ei.tas_err, parsed)
      else if ltb parsed.con_info.msg_length_d2c r.msg_length
      then no_message
          (leave (error "ERROR: Received message is longer than msg_length_d2c" err_general) parsed)
      else record {
        ret = no_error.tas_err;
        client = with_ei no_error parsed;
        msg = r.msg;
        msg_length = r.msg_length;
        init = r.init;
      }

  -- Whether the count of the handler has grown, which is noted.
  unfoldable pub device_reset_occurred : ClientChl M → Bool × ClientChl M
  device_reset_occurred k =
      let count = k.tph_chl.device_reset_count in
      if not k.con.session_started
      then (false, k)
      else if ltb count k.con.device_reset_count
      then (false, k)
      else (
        ltb k.con.device_reset_count count,
        record k { con = record (k.con) { device_reset_count = count } },
      )

module _ {M : Type 0} (mb_if : MailboxIf M) where
  -- `host` is the caller's memory, in which the message begins at `msg`.
  unfoldable pub send_msg : Mem ℕ → ℕ → ℕ → ℕ → ClientChl M → TasReturn × ClientChl M
  unfolding get_pkt_send_msg
  send_msg host msg msg_length init k =
      let built =
        with_chl (get_pkt_send_msg host k.chl_num msg msg_length init (chl_handler k)) k in
      if k.chl_cht != cht_send && k.chl_cht != cht_bidi
      then leave (err_not_for_sending k.chl_num) k
      else if ltb k.con_info.msg_length_c2d (full_length msg_length init)
      then leave (err_too_long msg_length k.con_info.msg_length_c2d) k
      else after_send built (mb_if.send built.tph_chl.rq_buf 1 built.con.mailbox)

  -- A receipt that fails clears the error record and returns an error all the same.
  unfoldable pub rcv_msg : ℕ → Mem ℕ → ClientChl M → Message M
  unfolding set_pkt_rcv_msg take_message
  rcv_msg timeout_ms stack k =
      let r =
        mb_if.receive stack (mb_if.config timeout_ms Size.pl1_chl_max_msg_size k.con.mailbox) in
      let received = with_mailbox r.mailbox k in
      if k.chl_cht != cht_rcv && k.chl_cht != cht_bidi
      then no_message (leave (err_not_for_receiving k.chl_num) k)
      else if r.ret
      then take_message (set_pkt_rcv_msg r.rsp k.chl_num (chl_handler received)) received
      else no_message (err_chl_rcv, with_ei no_error received)
