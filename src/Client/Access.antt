-- ===== src/Client/Access.antt =====
-- The operations of CTasClientRwBase and CTasClientRw on top of `execute_trans`
-- (src/tas_client/tas_client_rw_base.cpp and tas_client_rw.h). `value_at` is where the parameter
-- `value` stands in memory.
use tas_client_api.Prelude.{
  ℕ, ◌%◌, ◌||◌, Option, none, some, List, [], ◌∷◌, Mem, ◌==◌, ◌!=◌, if◌then◌else◌,
}
use tas_client_api.Pkt.Cmd
use tas_client_api.ErrorInfo.{
  TasReturn, err_fn_usage, err_fn_param, is_err, formatted, Info, no_error,
}
use tas_client_api.ConInfo
use tas_client_api.ConInfo.{ConInfo}
use tas_client_api.Base.Errors.{err_server_connection}
use tas_client_api.Base.Ping.{Base, client_rw, get_pkt_rq_ping, set_pkt_rsp_ping}
use tas_client_api.Rw.Trans.{Trans, tt_rd, tt_wr, tt_fill}
use tas_client_api.Rw.State
use tas_client_api.Rw.State.{Rw}
use tas_client_api.Rw.Results.{rw_get_trans_rsp}
use tas_client_api.Client.MailboxIf.{MailboxIf}
use tas_client_api.Client.Con.{Con}
use tas_client_api.Client.Con
use tas_client_api.Client.Fill.{fill32_trans, fill32_vars, put_value}
use tas_client_api.Client.Rw.{
  ClientRw, Executed, not_started, with_ei, with_info, with_rw, shared, received, executed,
  execute_trans,
}

-- What an access of one transaction returns and leaves; `num_bytes_ok` is for its pointer.
pub record Single (M : Type 0) : Type 0 where
  pub ret : TasReturn
  pub client : ClientRw M
  pub host : Mem ℕ
  pub num_bytes_ok : ℕ

abbrev zero_value : Mem ℕ → ℕ → ℕ → Mem ℕ
zero_value host p size = put_value host p size 0

abbrev num_bytes_ok_of : Option Rw → ℕ
num_bytes_ok_of none = 0
num_bytes_ok_of (some r) = (r.rw_trans_rsp 0).num_bytes_ok

-- The part of the handler that a ping uses.
abbrev ping_base : Rw → Base
ping_base r = record { ei = r.ei; con_info = r.con_info; rq_buf = r.rq_buf }

abbrev with_base : Base → Rw → Rw
with_base b r = record r { ei = b.ei; con_info = b.con_info; rq_buf = b.rq_buf }

module _ {M : Type 0} where
  -- The handler, when it is there, sums up the answers.
  abbrev get_trans_rsp : ClientRw M → Option Rw → ℕ × ClientRw M
  get_trans_rsp k none = (0, k)
  get_trans_rsp k (some r) =
      let got = rw_get_trans_rsp r in (got.0, record k { tph_rw = some got.1 })

  -- `rw_get_trans_rsp`: the number of transactions.
  unfoldable pub client_get_trans_rsp : ClientRw M → ℕ × ClientRw M
  unfolding rw_get_trans_rsp
  client_get_trans_rsp k = get_trans_rsp k k.tph_rw

  abbrev after_execute : Option (Executed M) → Option (Single M)
  after_execute none = none
  after_execute (some x) =
      let got = (client_get_trans_rsp x.client).1 in
      if is_err x.ret
      then some (record { ret = x.ret; client = x.client; host = x.host; num_bytes_ok = 0 })
      else some (record {
        ret = no_error.tas_err;
        client = with_ei no_error got;
        host = x.host;
        num_bytes_ok = num_bytes_ok_of got.tph_rw;
      })

  abbrev refuse : Info → Mem ℕ → ClientRw M → Option (Executed M)
  refuse info host k = some (executed err_fn_param (with_info info k) host)

  unfoldable pub rw_set_timeout : ℕ → ClientRw M → ClientRw M
  rw_set_timeout timeout_ms k = record k { timeout_ms = timeout_ms }

module _ {M : Type 0} (mb_if : MailboxIf M) where
  -- `mExecuteSingleTrans`
  unfoldable pub execute_single_trans : Mem ℕ → Trans → ClientRw M → Option (Single M)
  unfolding execute_trans client_get_trans_rsp
  execute_single_trans host t k = after_execute (execute_trans mb_if host (t ∷ []) k)

  -- The default of a value that is read is 0.
  abbrev read_value : ℕ → ℕ → Mem ℕ → ℕ → ℕ → ℕ → ClientRw M → Option (Single M)
  read_value size acc_mode host addr value addr_map =
      execute_single_trans (zero_value host value size) (record {
        addr = addr;
        num_bytes = size;
        acc_mode = acc_mode;
        addr_map = addr_map;
        type = tt_rd;
        buf = value;
      })

  abbrev write_value : ℕ → Mem ℕ → ℕ → ℕ → ℕ → ℕ → ClientRw M → Option (Single M)
  write_value size host value_at addr value addr_map =
      execute_single_trans (put_value host value_at size value) (record {
        addr = addr;
        num_bytes = size;
        acc_mode = 0;
        addr_map = addr_map;
        type = tt_wr;
        buf = value_at;
      })

  unfoldable pub read8 : Mem ℕ → ℕ → ℕ → ℕ → ClientRw M → Option (Single M)
  unfolding execute_single_trans
  read8 = read_value 1 tt_rd

  unfoldable pub write8 : Mem ℕ → ℕ → ℕ → ℕ → ℕ → ClientRw M → Option (Single M)
  unfolding execute_single_trans
  write8 = write_value 1

  unfoldable pub read16 : Mem ℕ → ℕ → ℕ → ℕ → ClientRw M → Option (Single M)
  unfolding execute_single_trans
  read16 = read_value 2 0

  unfoldable pub write16 : Mem ℕ → ℕ → ℕ → ℕ → ℕ → ClientRw M → Option (Single M)
  unfolding execute_single_trans
  write16 = write_value 2

  unfoldable pub read32 : Mem ℕ → ℕ → ℕ → ℕ → ClientRw M → Option (Single M)
  unfolding execute_single_trans
  read32 = read_value 4 0

  unfoldable pub write32 : Mem ℕ → ℕ → ℕ → ℕ → ℕ → ClientRw M → Option (Single M)
  unfolding execute_single_trans
  write32 = write_value 4

  unfoldable pub read64 : Mem ℕ → ℕ → ℕ → ℕ → ClientRw M → Option (Single M)
  unfolding execute_single_trans
  read64 = read_value 8 0

  unfoldable pub write64 : Mem ℕ → ℕ → ℕ → ℕ → ℕ → ClientRw M → Option (Single M)
  unfolding execute_single_trans
  write64 = write_value 8

  -- `read` and `write` of a buffer at `buf`.
  abbrev transfer : ℕ → Mem ℕ → ℕ → ℕ → ℕ → ℕ → ClientRw M → Option (Single M)
  transfer type host addr buf num_bytes addr_map = execute_single_trans host (record {
    addr = addr;
    num_bytes = num_bytes;
    acc_mode = 0;
    addr_map = addr_map;
    type = type;
    buf = buf;
  })

  unfoldable pub read : Mem ℕ → ℕ → ℕ → ℕ → ℕ → ClientRw M → Option (Single M)
  unfolding execute_single_trans
  read = transfer tt_rd

  unfoldable pub write : Mem ℕ → ℕ → ℕ → ℕ → ℕ → ClientRw M → Option (Single M)
  unfolding execute_single_trans
  write = transfer tt_wr

  unfoldable pub fill32 : Mem ℕ → ℕ → ℕ → ℕ → ℕ → ℕ → ℕ → ClientRw M → Option (Executed M)
  unfolding execute_trans fill32_trans fill32_vars
  fill32 host value_at value64_at addr value num_bytes addr_map k =
      if addr % 4 != 0
      then refuse (formatted "ERROR: addr has to be 32 bit aligned for fill32()" []) host k
      else if num_bytes == 0 || num_bytes % 4 != 0
      then refuse (formatted "ERROR: num_bytes has to be a multiple of 4 for fill32()" []) host k
      else execute_trans mb_if (fill32_vars host value value_at value64_at)
          (fill32_trans addr num_bytes addr_map value_at value64_at) k

  abbrev executed_of : Option (Single M) → Option (Executed M)
  executed_of none = none
  executed_of (some x) = some (executed x.ret x.client x.host)

  unfoldable pub fill64 : Mem ℕ → ℕ → ℕ → ℕ → ℕ → ℕ → ClientRw M → Option (Executed M)
  unfolding execute_single_trans
  fill64 host value_at addr value num_bytes addr_map k =
      if addr % 8 != 0
      then refuse (formatted "ERROR: addr has to be 64 bit aligned for fill64()" []) host k
      else if num_bytes == 0 || num_bytes % 8 != 0
      then refuse (formatted "ERROR: num_bytes has to be a multiple of 8 for fill64()" []) host k
      else executed_of (
          execute_single_trans (put_value host value_at 8 value)
            (record {
              addr = addr;
              num_bytes = num_bytes;
              acc_mode = 0;
              addr_map = addr_map;
              type = tt_fill;
              buf = value_at;
            })
            k)

  -- The connection information is what the pointer gets.
  abbrev after_ping : Rw → ClientRw M → TasReturn × Base → TasReturn × ClientRw M × ConInfo
  after_ping r k (ret, b) =
      let parsed = with_rw (with_base b r) k in
      if is_err ret
      then (b.ei.tas_err, parsed, ConInfo.empty)
      else (no_error.tas_err, with_ei no_error parsed, b.con_info)

  abbrev ping_session : ClientRw M → Option Rw → TasReturn × ClientRw M × ConInfo
  ping_session k none = (err_fn_usage, with_info not_started k, ConInfo.empty)
  ping_session k (some r) =
      let b = get_pkt_rq_ping Cmd.pl1_ping (ping_base (shared r k)) in
      let asked = with_base b r in
      let built = with_rw asked k in
      let a = mb_if.execute b.rq_buf built.rsp_buf 1 built.con.mailbox in
      if a.ret
      then after_ping asked (received a built)
          (set_pkt_rsp_ping Cmd.pl1_ping client_rw a.rsp (ping_base asked))
      else (
        err_server_connection.tas_err,
        with_ei err_server_connection (received a built),
        ConInfo.empty,
      )

  unfoldable pub target_ping : ClientRw M → TasReturn × ClientRw M × ConInfo
  unfolding get_pkt_rq_ping set_pkt_rsp_ping
  target_ping k = ping_session k k.tph_rw

  -- CTasClientRw: on success a new handler gets the connection information; `fresh` is what the
  -- memory of the new object held.
  abbrev pub after_session_start : Rw → ClientRw M → TasReturn × Con M → TasReturn × ClientRw M
  after_session_start fresh k (ret, con) =
      let started = record k { con = con } in
      (
        ret,
        if is_err ret then started else record started {
          tph_rw = some (State.construct (record fresh { ei = con.ei }) con.tphsc.base.con_info);
        },
      )

  unfoldable pub session_start :
      Mem ℕ → Rw → List ℕ → List ℕ → List ℕ → ClientRw M → TasReturn × ClientRw M
  unfolding Con.session_start State.construct
  session_start stack fresh identifier session_name session_pw k =
      after_session_start fresh k
        (Con.session_start mb_if stack client_rw identifier session_name session_pw 0 0 k.con)
