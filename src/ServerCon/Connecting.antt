-- ===== src/ServerCon/Connecting.antt =====
-- The packets of `server_connect` and `session_start` of CTasPktHandlerServerCon
-- (src/tas_client/tas_pkt_handler_server_con.cpp). A string is the codes of its characters. The
-- functions for `server_unlock` and for the challenge of a device are stubs in the source.
use tas_client_api.Prelude.{
  ℕ, ◌+◌, ◌-◌, ◌*◌, ◌/◌, ◌%◌, ◌^◌, ◌||◌, not, List, Mem, store, ◌==◌, ◌!=◌, if◌then◌else◌, byte0,
  byte1, byte3, bytes4, u8, u32, clear_words, copy_words, put_string,
}
use tas_client_api.Pkt.Cmd
use tas_client_api.Pkt.Err
use tas_client_api.ErrorInfo.{TasReturn, no_error}
use tas_client_api.Base.Errors.{err_connection_protocol}
use tas_client_api.Base.Ping.{
  ClientType, client_unknown, client_rw, client_chl, client_trc, set_pkt_rsp_ping,
}
use tas_client_api.ServerCon.Handler.{
  ServerCon, zeros, set_request, leave, err_server_connection_setup, err_server_is_locked,
}

-- `sizeof(tas_pl1rq_server_connect_st)` and `sizeof(tas_pl1rsp_server_connect_st)`
abbrev pub rq_server_connect_size : ℕ
rq_server_connect_size = 56

abbrev pub rsp_server_connect_size : ℕ
rsp_server_connect_size = 136

-- A request of `size` bytes, cleared, with its length and the first word of its header.
abbrev pub blank : ℕ → ℕ → Mem ℕ → Mem ℕ
blank size head buf = store (clear_words (store buf 0 (4 + size)) 1 (size / 4)) 1 head

unfoldable pub get_pkt_rq_server_connect : List ℕ → List ℕ → ℕ → ServerCon → ServerCon
get_pkt_rq_server_connect client_name user_name client_pid c =
    set_request
      (store
        (put_string user_name 16
          (put_string client_name 32
            (blank rq_server_connect_size
              (bytes4 (rq_server_connect_size / 4 - 1) Cmd.pl1_server_connect 0 0) c.base.rq_buf)
            2)
          10)
        14 (u32 client_pid))
      c

-- What `set_pkt_rsp_server_connect` returns; `challenge` is what it sets `*challenge` to, and
-- `*server_info` becomes the address of the handler's.
pub record Connection : Type 0 where
  pub ret : TasReturn
  pub handler : ServerCon
  pub challenge : ℕ

abbrev pub connection : TasReturn × ServerCon → Connection
connection (ret, c) = record { ret = ret; handler = c; challenge = 0 }

-- The last character of the server's name and of the date becomes 0.
abbrev terminate : Mem ℕ → Mem ℕ
terminate m = store (store m 15 (m 15 % 2 ^ 24)) 27 (m 27 % 2 ^ 24)

-- The server's information, in the 30 words from word 3 on, and the challenge behind it.
abbrev pub take_server_info : Mem ℕ → ServerCon → ServerCon
take_server_info pkt c = record c {
  server_info = terminate (copy_words pkt 3 30 zeros 0);
  server_challenge = pkt 33 + 2 ^ 32 * pkt 34;
}

unfoldable pub take_server_connect : ℕ → ServerCon → TasReturn × ServerCon
take_server_connect err c =
    if err == Err.pl_no_error
    then leave no_error c
    else if err == Err.pl1_server_locked
    then leave err_server_is_locked c
    else leave err_server_connection_setup c

unfoldable pub set_pkt_rsp_server_connect : Mem ℕ → ServerCon → Connection
unfolding take_server_connect
set_pkt_rsp_server_connect pkt c =
    let err = byte3 (pkt 1) in
    let cleared = record c { server_info = zeros; server_challenge = 0 } in
    if pkt 0 != 4 + rsp_server_connect_size
    then connection (leave err_connection_protocol cleared)
    else if byte1 (pkt 1) != Cmd.pl1_server_connect
        || byte0 (pkt 1) != rsp_server_connect_size / 4 - 1
    then connection (leave err_connection_protocol cleared)
    else if not
        (err == Err.pl_no_error || err == Err.pl1_cmd_failed || err == Err.pl1_server_locked)
    then connection (leave err_connection_protocol cleared)
    else connection (take_server_connect err (take_server_info pkt cleared))

-- `sizeof(tas_pl1rq_session_start_st)`
abbrev pub rq_session_start_size : ℕ
rq_session_start_size = 112

-- `tas_client_type_et`, as a number
abbrev pub client_type_code : ClientType → ℕ
client_type_code client_unknown = 0
client_type_code client_rw = 1
client_type_code client_chl = 2
client_type_code client_trc = 3

unfoldable pub get_pkt_rq_session_start :
    ClientType → List ℕ → List ℕ → List ℕ → ℕ → ℕ → ServerCon → ServerCon
get_pkt_rq_session_start client_type identifier session_name session_pw chl_target chl_param c =
    let head =
      blank rq_session_start_size
        (bytes4 (rq_session_start_size / 4 - 1) Cmd.pl1_session_start 0
          (client_type_code client_type))
        c.base.rq_buf in
    let params =
      store (store (store head 2 (u8 chl_target)) 3 (chl_param % 2 ^ 32)) 4
        (chl_param / 2 ^ 32 % 2 ^ 32) in
    set_request
      (put_string session_pw 16 (put_string session_name 16 (put_string identifier 64 params 5) 21)
        25)
      c

unfoldable pub set_pkt_rsp_session_start : ClientType → Mem ℕ → ServerCon → TasReturn × ServerCon
unfolding set_pkt_rsp_ping
set_pkt_rsp_session_start client_type pkt c =
    let r = set_pkt_rsp_ping Cmd.pl1_session_start client_type pkt c.base in
    (r.0, record c { base = r.1 })
