-- ===== src/Client/Con.antt =====
-- CTasClientServerCon (src/tas_client/tas_client_server_con.cpp and .h), as it is built for systems
-- other than Windows. The client and its handlers share one error record, `ei`: a handler is called
-- with it, and what the call leaves in it is taken back. The parameter `stack` is what the array
-- held that a response is received into.
use tas_client_api.Prelude.{ℕ, ◌-◌, ◌^◌, Bool, true, false, List, [], ◌∷◌, Mem, if◌then◌else◌, take}
use tas_client_api.ErrorInfo.{
  TasReturn, err_fn_usage, err_server_con, is_err, num, chars, formatted, ErrorInfo, error,
  no_error,
}
use tas_client_api.Base.Errors.{err_server_connection}
use tas_client_api.Base.Ping.{ClientType}
use tas_client_api.ServerCon.Handler.{ServerCon, set_error}
use tas_client_api.ServerCon.Connecting.{
  get_pkt_rq_server_connect, set_pkt_rsp_server_connect, get_pkt_rq_session_start,
  set_pkt_rsp_session_start,
}
use tas_client_api.ServerCon.Device.{
  get_pkt_rq_device_unlock_set_key, set_pkt_rsp_device_unlock_set_key, DeviceConnection,
  get_pkt_rq_device_connect, set_pkt_rsp_device_connect,
}
use tas_client_api.Client.MailboxIf.{Reply, MailboxIf}

pub record Con (M : Type 0) : Type 0 where
  pub ei : ErrorInfo
  pub tphsc : ServerCon
  pub mailbox : M
  pub client_name : List ℕ
  pub user_name : List ℕ
  pub client_pid : ℕ
  -- The characters up to the end of the string.
  pub server_ip_addr : List ℕ
  pub server_port_num : ℕ
  -- Whether the pointer is set.
  pub has_server_info : Bool
  pub server_challenge : ℕ
  pub session_started : Bool
  pub rcv_chl_active : Bool
  pub device_reset_count : ℕ

abbrev pub ip_addr_name_buf_size : ℕ
ip_addr_name_buf_size = 256

abbrev pub is_empty : List ℕ → Bool
is_empty [] = true
is_empty (x ∷ xs) = false

-- `mHandleErrorServerConnect`
abbrev pub err_no_server : List ℕ → ℕ → ErrorInfo
err_no_server ip_addr port_num = record {
  info = formatted "ERROR: Server %s port %d" (chars ip_addr ∷ num port_num ∷ []);
  tas_err = err_server_con;
}

-- `mHandleErrorRcvChlActive`
abbrev pub err_rcv_chl_active : ErrorInfo
err_rcv_chl_active = error "ERROR: Receive channel is active" err_fn_usage

-- The features and the device type that it also sets are not used.
abbrev pub device_connect_result : DeviceConnection → TasReturn × ServerCon
device_connect_result r = (r.ret, r.handler)

module _ {M : Type 0} where
  abbrev pub fail : ErrorInfo → Con M → TasReturn × Con M
  fail ei k = (ei.tas_err, record k { ei = ei })

  abbrev pub succeed : Con M → TasReturn × Con M
  succeed k = fail no_error k

  -- The handler, with the error record that it shares.
  abbrev pub handler : Con M → ServerCon
  handler k = set_error k.ei k.tphsc

  abbrev pub with_handler : ServerCon → Con M → Con M
  with_handler c k = record k { tphsc = c; ei = c.base.ei }

  -- A parser of the handler.
  abbrev pub on_handler : (ServerCon → TasReturn × ServerCon) → Con M → TasReturn × Con M
  on_handler parse k = let r = parse (handler k) in (r.0, with_handler r.1 k)

module _ {M : Type 0} (mb_if : MailboxIf M) (stack : Mem ℕ) where
  -- The result of a parser: its error is returned, which is in the error record.
  abbrev pub finish : (Con M → TasReturn × Con M) → TasReturn × Con M → TasReturn × Con M
  finish done (ret, k) = if is_err ret then (k.ei.tas_err, k) else done k

  -- What follows `execute`: an error, or a parser that gets the response.
  abbrev pub parse_reply :
      (Mem ℕ → Con M → TasReturn × Con M)
      → (Con M → TasReturn × Con M)
      → Con M
      → Reply M
      → TasReturn × Con M
  parse_reply parse done k r =
      if r.ret
      then finish done (parse r.rsp (record k { mailbox = r.mailbox }))
      else fail err_server_connection (record k { mailbox = r.mailbox })

  -- A request is built and executed, and its response is parsed.
  abbrev pub exchange :
      (ServerCon → ServerCon)
      → (Mem ℕ → Con M → TasReturn × Con M)
      → (Con M → TasReturn × Con M)
      → Con M
      → TasReturn × Con M
  exchange build parse done k =
      let built = with_handler (build (handler k)) k in
      parse_reply parse done built (mb_if.execute built.tphsc.base.rq_buf stack 1 built.mailbox)

  -- `set_pkt_rsp_server_connect` also sets the pointer to the server's information and the challenge.
  unfoldable pub parse_server_connect : Mem ℕ → Con M → TasReturn × Con M
  unfolding set_pkt_rsp_server_connect
  parse_server_connect pkt k =
      let r = set_pkt_rsp_server_connect pkt (handler k) in
      (
        r.ret,
        record (with_handler r.handler k) {
          has_server_info = true;
          server_challenge = r.challenge;
        },
      )

  -- What `server_connect` does once the socket has connected.
  unfoldable pub connect_handler : List ℕ → ℕ → Con M → TasReturn × Con M
  unfolding get_pkt_rq_server_connect parse_server_connect
  connect_handler ip_addr port_num k =
      exchange (get_pkt_rq_server_connect k.client_name k.user_name k.client_pid)
        parse_server_connect
        (λ d. succeed (record d {
          server_ip_addr = take (ip_addr_name_buf_size - 1) ip_addr;
          server_port_num = port_num;
        }))
        k

  abbrev after_socket : List ℕ → ℕ → Con M → Bool × M → TasReturn × Con M
  after_socket ip_addr port_num k (false, m) =
      fail (err_no_server ip_addr port_num) (record k { mailbox = m })
  after_socket ip_addr port_num k (true, m) =
      connect_handler ip_addr port_num (record k { mailbox = m })

  unfoldable pub server_connect : List ℕ → ℕ → Con M → TasReturn × Con M
  unfolding connect_handler
  server_connect ip_addr port_num k =
      if is_empty k.server_ip_addr
      then after_socket ip_addr port_num
          (record k {
            has_server_info = false;
            server_ip_addr = [];
            server_port_num = 0;
            server_challenge = 0;
          })
          (mb_if.server_connect ip_addr port_num k.mailbox)
      else fail (error "ERROR: Already connected to server" err_fn_usage) k

  -- `mSessionStart`
  unfoldable pub session_start :
      ClientType → List ℕ → List ℕ → List ℕ → ℕ → ℕ → Con M → TasReturn × Con M
  unfolding get_pkt_rq_session_start set_pkt_rsp_session_start
  session_start client_type identifier session_name session_pw chl_target chl_param k =
      if k.session_started
      then fail (error "ERROR: Session was already started" err_fn_usage) k
      else exchange
          (get_pkt_rq_session_start client_type identifier session_name session_pw chl_target
            chl_param)
          (λ pkt. on_handler (set_pkt_rsp_session_start client_type pkt))
          (λ d. succeed (record d { session_started = true }))
          (record k { device_reset_count = 2 ^ 32 - 1 })

  unfoldable pub device_unlock_set_key : ℕ → Mem ℕ → ℕ → ℕ → Con M → TasReturn × Con M
  unfolding get_pkt_rq_device_unlock_set_key set_pkt_rsp_device_unlock_set_key
  device_unlock_set_key ulo host key key_length k =
      if k.rcv_chl_active
      then fail err_rcv_chl_active k
      else exchange (get_pkt_rq_device_unlock_set_key ulo host key key_length)
          (λ pkt. on_handler (set_pkt_rsp_device_unlock_set_key pkt)) succeed k

  -- `mDeviceConnect`
  unfoldable pub device_connect : ℕ → Con M → TasReturn × Con M
  unfolding get_pkt_rq_device_connect set_pkt_rsp_device_connect
  device_connect dco k =
      if k.rcv_chl_active
      then fail err_rcv_chl_active k
      else exchange (get_pkt_rq_device_connect dco)
          (λ pkt. on_handler (λ c. device_connect_result (set_pkt_rsp_device_connect pkt c)))
          succeed k
