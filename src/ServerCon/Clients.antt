-- ===== src/ServerCon/Clients.antt =====
-- The list of the clients of a target, of CTasPktHandlerServerCon
-- (src/tas_client/tas_pkt_handler_server_con.cpp).
use tas_client_api.Prelude.{
  ℕ, zero, suc, ◌+◌, ◌-◌, ◌*◌, ◌/◌, ◌^◌, Bool, ◌||◌, not, List, [], ◌∷◌, Mem, ltb, ◌==◌, ◌!=◌,
  if◌then◌else◌, byte0, byte1, byte2, byte3, bytes4, sub32, copy_words, put_string, get_byte,
}
use tas_client_api.Pkt.Cmd
use tas_client_api.Pkt.Err
use tas_client_api.ErrorInfo.{err_fn_param, error, no_error}
use tas_client_api.Base.Errors.{err_connection_protocol}
use tas_client_api.ServerCon.Handler.{
  ServerCon, set_error, set_request, err_server_is_locked, num_target_client_max,
  target_client_info_size,
}
use tas_client_api.ServerCon.Connecting.{blank}
use tas_client_api.ServerCon.Targets.{Listing, no_listing, lesser, is_other_part, is_past_end}

-- `sizeof(tas_pl1rq_get_clients_st)` and `sizeof(tas_pl1rsp_get_clients_st)`
abbrev pub rq_get_clients_size : ℕ
rq_get_clients_size = 68

abbrev pub rsp_get_clients_size : ℕ
rsp_get_clients_size = 32

unfoldable pub get_pkt_rq_get_target_clients : List ℕ → ℕ → ServerCon → ServerCon
get_pkt_rq_get_target_clients identifier start_index c =
    set_request
      (put_string identifier 64
        (blank rq_get_clients_size
          (bytes4 (rq_get_clients_size / 4 - 1) Cmd.pl1_get_clients start_index 0) c.base.rq_buf)
        2)
      (record c { start_index = start_index })

-- `snprintf(dst, n + 1, "%s", src)`, for the string at byte `i`.
unfoldable pub c_string : ℕ → Mem ℕ → ℕ → List ℕ
c_string zero m i = []
c_string (suc n) m i =
    let rest = c_string n m (i + 1) in if get_byte m i == 0 then [] else get_byte m i ∷ rest

-- The session and the number of clients, from the first part of a list.
unfoldable pub note_session : Mem ℕ → ServerCon → ServerCon
unfolding c_string
note_session pkt c =
    if c.start_index == 0
    then record c {
      session_name = c_string 15 pkt 12;
      session_start_time_us = pkt 7 + 2 ^ 32 * pkt 8;
      num_target_client = lesser (byte0 (pkt 2)) num_target_client_max;
    }
    else c

-- The clients of a packet without error go to the beginning of the list.
abbrev pub copy_clients : Mem ℕ → ServerCon → ServerCon
copy_clients pkt c = record c {
  target_client_info =
      copy_words pkt ((4 + rsp_get_clients_size) / 4) (byte2 (pkt 2) * target_client_info_size / 4)
        c.target_client_info 0;
}

-- On success the numbers that it sets stay 0.
abbrev pub list_clients : ServerCon → Listing
list_clients c = record {
  ret = no_error.tas_err;
  handler = set_error no_error c;
  num = 0;
  num_now = 0;
}

-- The tests behind those of the header.
unfoldable pub take_clients : Mem ℕ → ServerCon → Listing
unfolding note_session
take_clients pkt c =
    if is_other_part pkt c.start_index c.num_target_client num_target_client_max
    then no_listing err_connection_protocol c
    else if is_past_end pkt c.num_target_client
    then no_listing err_connection_protocol c
    else if byte3 (pkt 1) == Err.pl_no_error
    then list_clients (copy_clients pkt (note_session pkt c))
    else if byte3 (pkt 1) == Err.pl_param
    then no_listing (error "ERROR: Target does not exist" err_fn_param) c
    else no_listing err_server_is_locked c

-- The tests of the header.
unfoldable pub check_clients : Mem ℕ → ServerCon → Listing
unfolding take_clients
check_clients pkt c =
    if pkt 0 != 4 + rsp_get_clients_size + byte2 (pkt 2) * target_client_info_size
    then no_listing err_connection_protocol c
    else if byte1 (pkt 1) != Cmd.pl1_get_clients || byte0 (pkt 1) != sub32 (pkt 0) 8 / 4
    then no_listing err_connection_protocol c
    else if not (
        byte3 (pkt 1) == Err.pl_no_error
        || byte3 (pkt 1) == Err.pl_param
        || byte3 (pkt 1) == Err.pl1_server_locked)
    then no_listing err_connection_protocol c
    else take_clients pkt c

-- A list begins anew with index 0.
abbrev pub forget_clients : ServerCon → ServerCon
forget_clients c =
    if c.start_index == 0
    then record c { session_name = []; session_start_time_us = 0; num_target_client = 0 }
    else c

unfoldable pub set_pkt_rsp_get_target_clients : Mem ℕ → ServerCon → Listing
unfolding check_clients
set_pkt_rsp_get_target_clients pkt c = check_clients pkt (forget_clients c)

-- The time that a client, whose words begin at 0, has connected.
abbrev pub client_connect_time : Mem ℕ → ℕ
client_connect_time e = e 14 + 2 ^ 32 * e 15

-- `ttci_compare_by_connect_time`: whether it returns 1, which else is -1.
abbrev pub ttci_compare_by_connect_time : Mem ℕ → Mem ℕ → Bool
ttci_compare_by_connect_time e0 e1 = ltb (client_connect_time e1) (client_connect_time e0)

-- What `get_target_clients_info` sets; `qsort` takes the array, the number of entries, their words
-- and the comparison.
pub record ClientsInfo : Type 0 where
  pub session_name : List ℕ
  pub session_start_time_us : ℕ
  pub target_client_info : Mem ℕ
  pub num_client : ℕ

unfoldable pub get_target_clients_info :
    (Mem ℕ → ℕ → ℕ → (Mem ℕ → Mem ℕ → Bool) → Mem ℕ) → ServerCon → ClientsInfo × ServerCon
get_target_clients_info qsort c =
    let sorted =
      qsort c.target_client_info c.num_target_client (target_client_info_size / 4)
        ttci_compare_by_connect_time in
    (
      record {
        session_name = c.session_name;
        session_start_time_us = c.session_start_time_us;
        target_client_info = sorted;
        num_client = c.num_target_client;
      },
      record c { target_client_info = sorted },
    )
