-- ===== src/Client/Calls.antt =====
-- What the calls of CTasClientChl that pass through the server connection leave of its subscription
-- (src/tas_client/tas_client_chl.cpp).
use tas_client_api.Prelude.{ℕ, ◌≡◌, refl, ◌∙◌, Bool, List, Mem, ◌!=◌, if-lem}
use tas_client_api.Pkt.Cmd
use tas_client_api.ErrorInfo.{TasReturn, is_err}
use tas_client_api.Base.Ping.{Base, client_chl, get_pkt_rq_ping, set_pkt_rsp_ping}
use tas_client_api.ServerCon.Device.{get_pkt_rq_device_connect, set_pkt_rsp_device_connect}
use tas_client_api.Chl.Handler.{cht_none}
use tas_client_api.Client.MailboxIf.{Reply, MailboxIf}
use tas_client_api.Client.Con.{
  Con, fail, succeed, handler, with_handler, on_handler, finish, parse_reply, exchange,
  err_rcv_chl_active, device_connect_result,
}
use tas_client_api.Client.Con
use tas_client_api.Client.Session.{session_start-IsStarted}
use tas_client_api.Client.Chl.{
  ClientChl, Pinged, base, with_base, with_mailbox, after_ping, after_session_start, session_start,
  device_connect, target_ping,
}
use tas_client_api.Client.Keeps.{IsKept}

module _ {M : Type 0} (mb_if : MailboxIf M) (stack : Mem ℕ) where
  -- What an exchange leaves of the mark of a receive channel, if its parser and its end leave it.
  finish-active :
      (done : Con M → TasReturn × Con M) (active : Bool) (x : TasReturn × Con M)
      → x.1.rcv_chl_active ≡ active
      → ((d : Con M) → (done d).1.rcv_chl_active ≡ d.rcv_chl_active)
      → (finish mb_if stack done x).1.rcv_chl_active ≡ active
  finish-active done active (ret, d) h keeps =
      if-lem (λ (x : TasReturn × Con M). x.1.rcv_chl_active ≡ active) (is_err ret) (λ e. h)
        (λ e. keeps d ∙ h)

  device_connect-active :
      (dco : ℕ) (k : Con M)
      → (Con.device_connect mb_if stack dco k).1.rcv_chl_active ≡ k.rcv_chl_active
  unfolding Con.device_connect
  device_connect-active dco k =
      if-lem P k.rcv_chl_active (λ h. refl)
        (λ h.
          if-lem P r.ret
            (λ ok.
              finish-active succeed k.rcv_chl_active
                (on_handler (λ c. device_connect_result (set_pkt_rsp_device_connect r.rsp c))
                  received)
                refl (λ d. refl))
            (λ e. refl))
    where
      P : TasReturn × Con M → Type 0
      P x = x.1.rcv_chl_active ≡ k.rcv_chl_active

      built : Con M
      built = with_handler (get_pkt_rq_device_connect dco (handler k)) k

      r : Reply M
      r = mb_if.execute built.tphsc.base.rq_buf stack 1 built.mailbox

      received : Con M
      received = record built { mailbox = r.mailbox }

  pub device_connect-Kept :
      (dco : ℕ) (k : ClientChl M) → IsKept k (device_connect mb_if stack dco k).1
  unfolding device_connect
  device_connect-Kept dco k =
      if-lem (λ (x : TasReturn × ClientChl M). IsKept k x.1) (k.chl_cht != cht_none)
        (λ h. record { cht = refl; num = refl; active = refl })
        (λ h. record { cht = refl; num = refl; active = device_connect-active dco k.con })

  after_session_start-Kept :
      (k : ClientChl M) (x : TasReturn × Con M)
      → x.1.rcv_chl_active ≡ k.con.rcv_chl_active
      → IsKept k (after_session_start mb_if stack k x).1
  after_session_start-Kept k (ret, con) e =
      if-lem (IsKept k) (is_err ret) (λ h. record { cht = refl; num = refl; active = e })
        (λ h. record { cht = refl; num = refl; active = e })

  pub session_start-Kept :
      (identifier name pw : List ℕ) (target param : ℕ) (k : ClientChl M)
      → IsKept k (session_start mb_if stack identifier name pw target param k).1
  unfolding session_start
  session_start-Kept identifier name pw target param k =
      if-lem (λ (x : TasReturn × ClientChl M). IsKept k x.1) (k.chl_cht != cht_none)
        (λ h. record { cht = refl; num = refl; active = refl })
        (λ h.
          after_session_start-Kept k
            (Con.session_start mb_if stack client_chl identifier name pw target param k.con)
            (session_start-IsStarted mb_if stack client_chl identifier name pw target param
              k.con).2)

  after_ping-Kept :
      (k d : ClientChl M) (x : TasReturn × Base)
      → IsKept k d
      → IsKept k (after_ping mb_if stack x d).client
  after_ping-Kept k d (ret, b) h =
      if-lem (λ (p : Pinged M). IsKept k p.client) (is_err ret)
        (λ e. record { cht = h.cht; num = h.num; active = h.active })
        (λ e. record { cht = h.cht; num = h.num; active = h.active })

  pub target_ping-Kept : (k : ClientChl M) → IsKept k (target_ping mb_if stack k).client
  unfolding target_ping
  target_ping-Kept k =
      if-lem P (k.chl_cht != cht_none) (λ h. record { cht = refl; num = refl; active = refl })
        (λ h.
          if-lem P r.ret
            (λ ok.
              after_ping-Kept k received
                (set_pkt_rsp_ping Cmd.pl1_ping client_chl r.rsp (base mb_if stack received))
                (record { cht = refl; num = refl; active = refl }))
            (λ e. record { cht = refl; num = refl; active = refl }))
    where
      P : Pinged M → Type 0
      P p = IsKept k p.client

      built : ClientChl M
      built = with_base mb_if stack (get_pkt_rq_ping Cmd.pl1_ping (base mb_if stack k)) k

      r : Reply M
      r = mb_if.execute built.tph_chl.rq_buf stack 1 built.con.mailbox

      received : ClientChl M
      received = with_mailbox r.mailbox built
