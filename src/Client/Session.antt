-- ===== src/Client/Session.antt =====
-- The session of CTasClientServerCon (src/tas_client/tas_client_server_con.cpp).
use tas_client_api.Prelude.{
  ℕ, ◌-◌, ◌^◌, ◌≡◌, refl, ap, ◌∙◌, sym, subst, ◌⊎◌, inl, inr, arith, true, false, List, Mem, if-lem,
}
use tas_client_api.Pkt.Cmd
use tas_client_api.ErrorInfo.{TasReturn, is_err, ErrorInfo, no_error}
use tas_client_api.ConInfo.{IsAgreed}
use tas_client_api.Base.Ping.{Base, ClientType, set_pkt_rsp_ping}
use tas_client_api.Base.Accepted.{IsAnswer, IsOutcome, set_pkt_rsp_ping-Outcome}
use tas_client_api.ServerCon.Connecting.{get_pkt_rq_session_start, set_pkt_rsp_session_start}
use tas_client_api.Client.MailboxIf.{Reply, MailboxIf}
use tas_client_api.Client.Con.{Con, succeed, handler, with_handler, finish, session_start}

-- Either an error is returned and noted, and whether a session has started stays as it is; or none
-- is noted, a session has started that had not, and it has agreed on its connection information.
abbrev pub IsStarted : {M : Type 0} → Con M → TasReturn × Con M → Type 0
IsStarted k (ret, d) =
    (ret ≡ d.ei.tas_err)
    × (((is_err ret ≡ true) × (d.session_started ≡ k.session_started))
        ⊎ ((d.ei ≡ no_error)
            × (k.session_started ≡ false)
            × (d.session_started ≡ true)
            × IsAgreed d.tphsc.base.con_info))
    × (d.rcv_chl_active ≡ k.rcv_chl_active)

module _ {M : Type 0} (mb_if : MailboxIf M) (stack : Mem ℕ) where
  abbrev start : Con M → TasReturn × Con M
  start d = succeed (record d { session_started = true })

  -- What the parser makes of the response, for a client without a session.
  parsed-Started :
      (k d : Con M) (client_type : ClientType) (pkt : Mem ℕ) (r : TasReturn × Base)
      → k.session_started ≡ false
      → d.session_started ≡ k.session_started
      → d.rcv_chl_active ≡ k.rcv_chl_active
      → IsOutcome pkt (IsAnswer Cmd.pl1_session_start client_type pkt) r
      → IsStarted k
          (finish mb_if stack start (r.0, with_handler (record (handler d) { base = r.1 }) d))
  parsed-Started k d client_type pkt (ret, b) before same active (e, inl (err, empty)) =
      if-lem (IsStarted k) (is_err ret) (λ h. (refl, inl (ap is_err (sym e) ∙ err, same), active))
        (λ h. absurd (ground arith))
  parsed-Started k d client_type pkt (ret, b) before same active (e, inr (ok, info, answer)) =
      if-lem (IsStarted k) (is_err ret) (λ h. absurd (ground (arith, bad, h)))
        (λ h.
          (refl, inr (refl, before, refl, subst IsAgreed (sym info) answer.sized.agreed), active))
    where
      bad : is_err ret ≡ false
      bad = ap is_err e ∙ ap (λ (ei : ErrorInfo). is_err ei.tas_err) ok

  -- On every path through `mSessionStart` the code returned is the one noted, and the mark of an
  -- active receive channel stays. Either it is an error, and whether a session has started stays; or
  -- no error is noted, no session had started and now one has, and the connection information that
  -- the handler has keeps within the limits for packet sizes.
  pub session_start-IsStarted :
      (client_type : ClientType) (identifier session_name session_pw : List ℕ)
      (chl_target chl_param : ℕ) (k : Con M)
      → IsStarted k (
          session_start mb_if stack client_type identifier session_name session_pw chl_target
            chl_param k)
  unfolding session_start set_pkt_rsp_session_start get_pkt_rq_session_start
  session_start-IsStarted client_type identifier session_name session_pw chl_target chl_param k =
      if-lem (IsStarted k) k.session_started (λ h. (refl, inl (refl, refl), refl))
        (λ before.
          if-lem (IsStarted k) r.ret
            (λ ok.
              parsed-Started k received client_type r.rsp
                (set_pkt_rsp_ping Cmd.pl1_session_start client_type r.rsp (handler received).base)
                before refl refl
                (set_pkt_rsp_ping-Outcome Cmd.pl1_session_start client_type r.rsp
                  (handler received).base))
            (λ e. (refl, inl (refl, refl), refl)))
    where
      reset : Con M
      reset = record k { device_reset_count = 2 ^ 32 - 1 }

      built : Con M
      built =
          with_handler
            (get_pkt_rq_session_start client_type identifier session_name session_pw chl_target
              chl_param (handler reset))
            reset

      r : Reply M
      r = mb_if.execute built.tphsc.base.rq_buf stack 1 built.mailbox

      received : Con M
      received = record built { mailbox = r.mailbox }
