-- ===== src/Client/Lists.antt =====
-- The loops over the lists of targets and of clients, of CTasClientServerCon
-- (src/tas_client/tas_client_server_con.cpp). A loop takes a round of fuel for each packet, and none
-- means that it ran out.
use tas_client_api.Prelude.{
  ℕ, zero, suc, ◌+◌, Bool, Option, none, some, List, [], Mem, ltb, if◌then◌else◌, u8,
}
use tas_client_api.ErrorInfo.{TasReturn, is_err, ErrorInfo, no_error}
use tas_client_api.Base.Errors.{err_server_connection}
use tas_client_api.ServerCon.Handler.{ServerCon}
use tas_client_api.ServerCon.Targets.{
  Listing, get_pkt_rq_get_targets, set_pkt_rsp_get_targets, get_target_info,
}
use tas_client_api.ServerCon.Clients.{
  ClientsInfo, get_pkt_rq_get_target_clients, set_pkt_rsp_get_target_clients,
  get_target_clients_info,
}
use tas_client_api.Client.MailboxIf.{MailboxIf}
use tas_client_api.Client.Con.{Con, handler, with_handler, err_rcv_chl_active}

-- What `get_targets` returns and sets; the list is none for a null pointer and where the call leaves
-- it as it is.
pub record Targets (M : Type 0) : Type 0 where
  pub ret : TasReturn
  pub con : Con M
  pub target_info : Option (Mem ℕ)
  pub num_target : ℕ

-- What `get_target_clients` returns and sets.
pub record Clients (M : Type 0) : Type 0 where
  pub ret : TasReturn
  pub con : Con M
  pub session_name : List ℕ
  pub session_start_time_us : ℕ
  pub target_client_info : Option (Mem ℕ)
  pub num_client : ℕ

module _ {M : Type 0} where
  -- An error is noted and returned.
  abbrev pub no_targets : ErrorInfo → Con M → Targets M
  no_targets ei k = record {
    ret = ei.tas_err;
    con = record k { ei = ei };
    target_info = none;
    num_target = 0;
  }

  abbrev pub all_targets : Con M → Targets M
  all_targets k =
      let r = get_target_info k.tphsc in
      record {
        ret = no_error.tas_err;
        con = record k { ei = no_error };
        target_info = r.0;
        num_target = r.1;
      }

  abbrev pub no_clients : ErrorInfo → Con M → Clients M
  no_clients ei k = record {
    ret = ei.tas_err;
    con = record k { ei = ei };
    session_name = [];
    session_start_time_us = 0;
    target_client_info = none;
    num_client = 0;
  }

  abbrev all_clients : ClientsInfo × ServerCon → Con M → Clients M
  all_clients (info, c) k = record {
    ret = no_error.tas_err;
    con = record k { ei = no_error; tphsc = c };
    session_name = info.session_name;
    session_start_time_us = info.session_start_time_us;
    target_client_info = some info.target_client_info;
    num_client = info.num_client;
  }

  -- What a round goes on with: `done`, or the next round from an index, with the buffer.
  abbrev pub after_listing :
      {R : Type 0}
      → (ErrorInfo → Con M → R)
      → (Con M → R)
      → (ℕ → Con M → Option R)
      → ℕ
      → Listing
      → Con M
      → Option R
  after_listing failed done next start l k =
      let listed = with_handler l.handler k in
      let start' = u8 (start + l.num_now) in
      if is_err l.ret
      then some (failed listed.ei listed)
      else if ltb start' l.num
      then next start' listed
      else some (done listed)

module _ {M : Type 0} (mb_if : MailboxIf M) where
  -- A request is built and executed, and its response is parsed.
  abbrev pub list_round :
      {R : Type 0}
      → (ServerCon → ServerCon)
      → (Mem ℕ → ServerCon → Listing)
      → (ErrorInfo → Con M → R)
      → (Con M → R)
      → (Mem ℕ → ℕ → Con M → Option R)
      → ℕ
      → Mem ℕ
      → Con M
      → Option R
  list_round build parse failed done next start rsp k =
      let built = with_handler (build (handler k)) k in
      let r = mb_if.execute built.tphsc.base.rq_buf rsp 1 built.mailbox in
      let received = record built { mailbox = r.mailbox } in
      if r.ret
      then after_listing failed done (next r.rsp) start (parse r.rsp (handler received)) received
      else some (failed err_server_connection received)

  -- The loop of `get_targets`, from an index on; `rsp` is the buffer.
  unfoldable pub targets_loop : ℕ → Mem ℕ → ℕ → Con M → Option (Targets M)
  unfolding get_pkt_rq_get_targets set_pkt_rsp_get_targets get_target_info
  targets_loop zero rsp start k = none
  targets_loop (suc fuel) rsp start k =
      list_round (get_pkt_rq_get_targets start) set_pkt_rsp_get_targets no_targets all_targets
        (targets_loop fuel) start rsp k

  unfoldable pub get_targets : ℕ → Mem ℕ → Con M → Option (Targets M)
  unfolding targets_loop
  get_targets fuel rsp k =
      if k.rcv_chl_active then some (no_targets err_rcv_chl_active k) else targets_loop fuel rsp 0 k

  -- The loop of `get_target_clients`; `qsort` is that of the C library.
  unfoldable pub clients_loop :
      (Mem ℕ → ℕ → ℕ → (Mem ℕ → Mem ℕ → Bool) → Mem ℕ)
      → List ℕ
      → ℕ
      → Mem ℕ
      → ℕ
      → Con M
      → Option (Clients M)
  unfolding get_pkt_rq_get_target_clients set_pkt_rsp_get_target_clients get_target_clients_info
  clients_loop qsort identifier zero rsp start k = none
  clients_loop qsort identifier (suc fuel) rsp start k =
      list_round (get_pkt_rq_get_target_clients identifier start) set_pkt_rsp_get_target_clients
        no_clients (λ d. all_clients (get_target_clients_info qsort d.tphsc) d)
        (clients_loop qsort identifier fuel) start rsp k

  unfoldable pub get_target_clients :
      (Mem ℕ → ℕ → ℕ → (Mem ℕ → Mem ℕ → Bool) → Mem ℕ)
      → List ℕ
      → ℕ
      → Mem ℕ
      → Con M
      → Option (Clients M)
  unfolding clients_loop
  get_target_clients qsort identifier fuel rsp k =
      if k.rcv_chl_active
      then some (no_clients err_rcv_chl_active k)
      else clients_loop qsort identifier fuel rsp 0 k
