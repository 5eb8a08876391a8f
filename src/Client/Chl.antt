-- ===== src/Client/Chl.antt =====
-- CTasClientChl (src/tas_client/tas_client_chl.cpp and .h). The client and its handlers share one
-- error record, that of `con`. The parameter `stack` is what the arrays held that responses are
-- received into, `time_ms` the clock, `tasutil_time_ms`.
use tas_client_api.Prelude.{ℕ, Option, none, some, List, Mem, ◌!=◌, if◌then◌else◌}
use tas_client_api.Pkt.Cmd
use tas_client_api.Pkt.Size
use tas_client_api.ErrorInfo.{TasReturn, err_fn_usage, is_err, ErrorInfo, error, no_error}
use tas_client_api.ConInfo
use tas_client_api.ConInfo.{ConInfo}
use tas_client_api.Base.Errors.{err_server_connection}
use tas_client_api.Base.Ping.{Base, client_chl, get_pkt_rq_ping, set_pkt_rsp_ping}
use tas_client_api.Chl.Handler.{Chl, cht_none, chl_num_max}
use tas_client_api.Client.MailboxIf.{MailboxIf}
use tas_client_api.Client.Con.{Con, fail}
use tas_client_api.Client.Con

-- `TAS_DEFAULT_TIMEOUT_MS` of a release build
abbrev pub default_timeout_ms : ℕ
default_timeout_ms = 20000

pub record ClientChl (M : Type 0) : Type 0 where
  pub con : Con M
  pub tph_chl : Chl
  -- The connection information of the channel handler.
  pub con_info : ConInfo
  pub chl_cht : ℕ
  pub chl_num : ℕ

abbrev pub err_already_subscribed : ErrorInfo
err_already_subscribed = error "ERROR: Channel is already subscribed." err_fn_usage

module _ {M : Type 0} where
  abbrev pub with_ei : ErrorInfo → ClientChl M → ClientChl M
  with_ei ei k = record k { con = record (k.con) { ei = ei } }

  abbrev pub with_mailbox : M → ClientChl M → ClientChl M
  with_mailbox m k = record k { con = record (k.con) { mailbox = m } }

  abbrev pub leave : ErrorInfo → ClientChl M → TasReturn × ClientChl M
  leave ei k = (ei.tas_err, with_ei ei k)

  -- The channel handler, with the error record that it shares.
  abbrev pub chl_handler : ClientChl M → Chl
  chl_handler k = record (k.tph_chl) { ei = k.con.ei }

  abbrev pub with_chl : Chl → ClientChl M → ClientChl M
  with_chl c k = with_ei c.ei (record k { tph_chl = c })

-- What `target_ping`, `subscribe` and `rcv_msg` return and set. `prio` is what the pointer to the
-- priority gets, `con_info` what that to the connection information gets: none
-- where it stays. `msg` is the index of the word that the pointer names.
pub record Pinged (M : Type 0) : Type 0 where
  pub ret : TasReturn
  pub client : ClientChl M
  pub con_info : Option ConInfo

pub record Subscription (M : Type 0) : Type 0 where
  pub ret : TasReturn
  pub client : ClientChl M
  pub prio : Option ℕ

pub record Message (M : Type 0) : Type 0 where
  pub ret : TasReturn
  pub client : ClientChl M
  pub msg : Option ℕ
  pub msg_length : ℕ
  pub init : ℕ

module _ {M : Type 0} (mb_if : MailboxIf M) (stack : Mem ℕ) where
  -- The constructor, of a client of which the other parts are built.
  unfoldable pub construct : Con M → Chl → ClientChl M
  construct con tph_chl = record {
    con = record con {
      mailbox = mb_if.config default_timeout_ms Size.pl1_chl_max_msg_size con.mailbox;
    };
    tph_chl = tph_chl;
    con_info = ConInfo.empty;
    chl_cht = cht_none;
    chl_num = chl_num_max;
  }

  -- On success the channel handler gets the connection information.
  abbrev pub after_session_start : ClientChl M → TasReturn × Con M → TasReturn × ClientChl M
  after_session_start k (ret, con) = (
    ret,
    if is_err ret
        then record k { con = con }
        else record k { con = con; con_info = con.tphsc.base.con_info },
  )

  unfoldable pub session_start :
      List ℕ → List ℕ → List ℕ → ℕ → ℕ → ClientChl M → TasReturn × ClientChl M
  unfolding Con.session_start
  session_start identifier session_name session_pw chl_target chl_param k =
      if k.chl_cht != cht_none
      then leave err_already_subscribed k
      else after_session_start k (
          Con.session_start mb_if stack client_chl identifier session_name session_pw chl_target
            chl_param k.con)

  abbrev pub after_device_connect : ClientChl M → TasReturn × Con M → TasReturn × ClientChl M
  after_device_connect k (ret, con) =
      (ret, record k { con = record con { device_reset_count = k.tph_chl.device_reset_count } })

  unfoldable pub device_connect : ℕ → ClientChl M → TasReturn × ClientChl M
  unfolding Con.device_connect
  device_connect dco k =
      if k.chl_cht != cht_none
      then leave err_already_subscribed k
      else after_device_connect k (Con.device_connect mb_if stack dco k.con)

  abbrev pub pinged : Option ConInfo → TasReturn × ClientChl M → Pinged M
  pinged info (ret, k) = record { ret = ret; client = k; con_info = info }

  -- The part of the channel handler that a ping uses.
  abbrev pub base : ClientChl M → Base
  base k = record { ei = k.con.ei; con_info = k.con_info; rq_buf = k.tph_chl.rq_buf }

  abbrev pub with_base : Base → ClientChl M → ClientChl M
  with_base b k =
      with_ei b.ei
        (record k { con_info = b.con_info; tph_chl = record (k.tph_chl) { rq_buf = b.rq_buf } })

  abbrev pub after_ping : TasReturn × Base → ClientChl M → Pinged M
  after_ping (ret, b) k =
      let parsed = with_base b k in
      if is_err ret
      then pinged (some ConInfo.empty) (b.ei.tas_err, parsed)
      else pinged (some b.con_info) (leave no_error parsed)

  unfoldable pub target_ping : ClientChl M → Pinged M
  unfolding get_pkt_rq_ping set_pkt_rsp_ping
  target_ping k =
      let built = with_base (get_pkt_rq_ping Cmd.pl1_ping (base k)) k in
      let r = mb_if.execute built.tph_chl.rq_buf stack 1 built.con.mailbox in
      let received = with_mailbox r.mailbox built in
      if k.chl_cht != cht_none
      then pinged none (leave err_already_subscribed k)
      else if r.ret
      then after_ping (set_pkt_rsp_ping Cmd.pl1_ping client_chl r.rsp (base received)) received
      else pinged (some ConInfo.empty) (leave err_server_connection received)
