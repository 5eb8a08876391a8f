-- ===== src/Client/Channel.antt =====
-- `subscribe` and `unsubscribe` of CTasClientChl (src/tas_client/tas_client_chl.cpp).
use tas_client_api.Prelude.{
  ℕ, zero, suc, ◌+◌, ◌-◌, ◌^◌, ◌%◌, Bool, true, false, ◌&&◌, ◌||◌, not, Option, none, some, [], ◌∷◌,
  Mem, ltb, leb, ◌==◌, ◌!=◌, if◌then◌else◌, byte1,
}
use tas_client_api.Pkt.Cmd
use tas_client_api.ErrorInfo.{
  TasReturn, err_fn_usage, err_fn_param, is_err, num, formatted, ErrorInfo, error, no_error,
}
use tas_client_api.Base.Errors.{err_server_connection}
use tas_client_api.Chl.Handler.{
  Chl, Subscribed, cht_none, cht_rcv, cht_bidi, chso_default, chso_exclusive, chl_num_max,
  chl_lowest_priority, is_cht, get_pkt_rq_subscribe, set_pkt_rsp_subscribe, get_pkt_rq_unsubscribe,
  set_pkt_rsp_unsubscribe,
}
use tas_client_api.Client.MailboxIf.{MailboxIf}
use tas_client_api.Client.Chl.{
  ClientChl, Subscription, err_already_subscribed, with_mailbox, with_chl, leave, chl_handler,
  default_timeout_ms,
}

-- The priority that is asked for: that of the caller, if it is one.
abbrev pub prio_requested : Option ℕ → ℕ
prio_requested none = chl_lowest_priority
prio_requested (some p) = if leb p chl_lowest_priority then p else chl_lowest_priority

-- `*prio` when the pointer is set.
abbrev prio_assigned : Option ℕ → ℕ → Option ℕ
prio_assigned none p = none
prio_assigned (some q) p = some p

-- The error of parameters that `subscribe` refuses, if it does.
abbrev pub wrong_params : ℕ → ℕ → ℕ → Option ErrorInfo
wrong_params chl cht chso =
    if leb chl_num_max chl
    then some (record {
      info =
          formatted "ERROR: Channel number %d is too high. Only 0 to %d allowed."
            (num chl ∷ num (chl_num_max - 1) ∷ []);
      tas_err = err_fn_param;
    })
    else if not (is_cht cht)
    then some (error "ERROR: Channel type is not supported" err_fn_param)
    else if chso != chso_default && chso != chso_exclusive
    then some (error "ERROR: Channel option is not supported" err_fn_param)
    else none

abbrev pub is_rcv : ℕ → Bool
is_rcv cht = cht == cht_rcv || cht == cht_bidi

module _ {M : Type 0} where
  abbrev pub subscription : Option ℕ → TasReturn × ClientChl M → Subscription M
  subscription prio (ret, k) = record { ret = ret; client = k; prio = prio }

  -- A subscription that the server has granted.
  abbrev pub enter : ℕ → ℕ → ClientChl M → ClientChl M
  enter chl cht k = record k {
    chl_cht = cht;
    chl_num = chl;
    con = record (k.con) { rcv_chl_active = is_rcv cht };
  }

  abbrev pub after_subscribe : ℕ → ℕ → Option ℕ → ClientChl M → Subscribed → Subscription M
  after_subscribe chl cht prio k s =
      let parsed = with_chl s.handler k in
      if is_err s.ret
      then subscription prio (parsed.con.ei.tas_err, parsed)
      else subscription (prio_assigned prio s.prio) (leave no_error (enter chl cht parsed))

  -- The state behind the request of `unsubscribe`.
  abbrev pub exit : ClientChl M → ClientChl M
  exit k = record k {
    chl_cht = cht_none;
    chl_num = chl_num_max;
    con = record (k.con) { rcv_chl_active = false };
  }

module _ {M : Type 0} (mb_if : MailboxIf M) (stack : Mem ℕ) where
  -- `subscribe` with parameters that are allowed.
  unfoldable pub request_subscription : ℕ → ℕ → ℕ → Option ℕ → ClientChl M → Subscription M
  unfolding get_pkt_rq_subscribe set_pkt_rsp_subscribe
  request_subscription chl cht chso prio k =
      let built =
        with_chl (get_pkt_rq_subscribe chl cht chso (prio_requested prio) (chl_handler k)) k in
      let r = mb_if.execute built.tph_chl.rq_buf stack 1 built.con.mailbox in
      let received = with_mailbox r.mailbox built in
      if r.ret
      then after_subscribe chl cht prio received
          (set_pkt_rsp_subscribe r.rsp (chl_handler received))
      else subscription prio (leave err_server_connection received)

  abbrev pub check_params : ℕ → ℕ → ℕ → Option ℕ → ClientChl M → Option ErrorInfo → Subscription M
  check_params chl cht chso prio k (some ei) = subscription prio (leave ei k)
  check_params chl cht chso prio k none = request_subscription chl cht chso prio k

  unfoldable pub subscribe : ℕ → ℕ → ℕ → Option ℕ → ClientChl M → Subscription M
  unfolding request_subscription
  subscribe chl cht chso prio k =
      if not k.con.session_started
      then subscription prio (leave (error "ERROR: Session not yet started" err_fn_usage) k)
      else if k.chl_cht != cht_none
      then subscription prio (leave err_already_subscribed k)
      else check_params chl cht chso prio (record k { chl_num = chl_num_max })
          (wrong_params chl cht chso)

module _ {M : Type 0} (mb_if : MailboxIf M) (time_ms : M → ℕ) where
  -- The end of `unsubscribe`, with the packet that ended the loop.
  abbrev pub finish_unsubscribe : TasReturn × Chl → ClientChl M → TasReturn × ClientChl M
  finish_unsubscribe (ret, c) k =
      let parsed = with_chl c k in
      if is_err ret then (parsed.con.ei.tas_err, parsed) else leave no_error parsed

  -- The loop of `unsubscribe`, with a round of fuel for each packet that arrives: none when it runs
  -- out. Messages are dropped until the answer arrives or the time is over.
  unfoldable pub unsubscribe_loop : ℕ → ℕ → Mem ℕ → ClientChl M → Option (TasReturn × ClientChl M)
  unfolding set_pkt_rsp_unsubscribe
  unsubscribe_loop zero time_start_ms rsp k = none
  unsubscribe_loop (suc fuel) time_start_ms rsp k =
      let r = mb_if.receive rsp k.con.mailbox in
      let received = with_mailbox r.mailbox k in
      let rest = unsubscribe_loop fuel time_start_ms r.rsp received in
      if r.ret
      then (if byte1 (r.rsp 1) == Cmd.pl1_chl_unsubscribe
            || ltb ((time_start_ms + default_timeout_ms) % 2 ^ 64) (time_ms r.mailbox)
          then some
              (finish_unsubscribe (set_pkt_rsp_unsubscribe r.rsp (chl_handler received)) received)
          else rest)
      else some (leave err_server_connection received)

  abbrev pub after_send : ℕ → Mem ℕ → ClientChl M → Bool × M → Option (TasReturn × ClientChl M)
  after_send fuel stack k (false, m) = some (leave err_server_connection (with_mailbox m k))
  after_send fuel stack k (true, m) = unsubscribe_loop fuel (time_ms m) stack (with_mailbox m k)

  unfoldable pub unsubscribe : ℕ → Mem ℕ → ClientChl M → Option (TasReturn × ClientChl M)
  unfolding get_pkt_rq_unsubscribe unsubscribe_loop
  unsubscribe fuel stack k =
      let built = exit (with_chl (get_pkt_rq_unsubscribe k.chl_num (chl_handler k)) k) in
      if k.chl_cht == cht_none
      then some (leave no_error k)
      else after_send fuel stack built (mb_if.send built.tph_chl.rq_buf 1 built.con.mailbox)
