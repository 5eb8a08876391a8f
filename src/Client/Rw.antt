-- ===== src/Client/Rw.antt =====
-- CTasClientRwBase and CTasClientRw (src/tas_client/tas_client_rw_base.cpp and tas_client_rw.h). The
-- error record and the mailbox that the two classes share are those of `con`. `host` is the caller's
-- memory. None means that a loop over packets ran out of fuel.
use tas_client_api.Prelude.{
  ℕ, suc, ◌+◌, ◌/◌, Bool, true, false, Option, none, some, String, List, [], ◌∷◌, Mem, ◌==◌,
  if◌then◌else◌,
}
use tas_client_api.ErrorInfo.{
  TasReturn, err_fn_usage, err_fn_param, is_err, num, str, formatted, Info, ErrorInfo, no_error,
}
use tas_client_api.Base.Errors.{err_server_connection}
use tas_client_api.Rw.Trans.{Trans, tt_rd}
use tas_client_api.Rw.State.{Rw}
use tas_client_api.Rw.Request.{rw_set_trans, rw_get_rq}
use tas_client_api.Rw.Response.{SetRsp, rw_set_rsp}
use tas_client_api.Client.MailboxIf.{Reply, MailboxIf}
use tas_client_api.Client.Con.{Con}

pub record ClientRw (M : Type 0) : Type 0 where
  pub con : Con M
  -- none for a null pointer
  pub tph_rw : Option Rw
  pub timeout_ms : ℕ
  pub rsp_buf : Mem ℕ

-- What an execution returns and leaves.
pub record Executed (M : Type 0) : Type 0 where
  pub ret : TasReturn
  pub client : ClientRw M
  pub host : Mem ℕ

-- The texts of the errors that leave the error code of the record as it is.
abbrev pub not_started : Info
not_started = formatted "ERROR: Session not yet started" []

abbrev first_trans : List Trans → Trans
first_trans [] = record { addr = 0; num_bytes = 0; acc_mode = 0; addr_map = 0; type = 0; buf = 0 }
first_trans (t ∷ ts) = t

abbrev type_str : Trans → String
type_str t = if t.type == tt_rd then "RD" else "WR"

abbrev count : List Trans → ℕ
count [] = 0
count (t ∷ ts) = suc (count ts)

abbrev pub not_added : List Trans → Info
not_added ts =
    let t = first_trans ts in
    if count ts == 1
    then formatted
        "ERROR: Failed to add %s addr=0x%llX, num_bytes=%u, acc_mode=0x%4.4X, addr_map=%u"
        (str (type_str t) ∷ num t.addr ∷ num t.num_bytes ∷ num t.acc_mode ∷ num t.addr_map ∷ [])
    else formatted
        "ERROR: Failed to add %u trans (first %s addr=0x%llX, num_bytes=%u, acc_mode=0x%4.4X, addr_map=%u)"
        (num (count ts)
          ∷ str (type_str t)
          ∷ num t.addr
          ∷ num t.num_bytes
          ∷ num t.acc_mode
          ∷ num t.addr_map
          ∷ [])

module _ {M : Type 0} where
  abbrev pub with_ei : ErrorInfo → ClientRw M → ClientRw M
  with_ei ei k = record k { con = record (k.con) { ei = ei } }

  abbrev pub with_info : Info → ClientRw M → ClientRw M
  with_info info k = with_ei (record (k.con.ei) { info = info }) k

  -- The handler, whose error record is the client's.
  abbrev pub with_rw : Rw → ClientRw M → ClientRw M
  with_rw r k = with_ei r.ei (record k { tph_rw = some r })

  abbrev pub shared : Rw → ClientRw M → Rw
  shared r k = record r { ei = k.con.ei }

  abbrev pub received : Reply M → ClientRw M → ClientRw M
  received r k = record k { rsp_buf = r.rsp; con = record (k.con) { mailbox = r.mailbox } }

  abbrev pub executed : TasReturn → ClientRw M → Mem ℕ → Executed M
  executed ret k host = record { ret = ret; client = k; host = host }

  abbrev pub noted : ErrorInfo → ClientRw M → Mem ℕ → Executed M
  noted ei k host = executed ei.tas_err (with_ei ei k) host

  -- What follows `rw_set_rsp`.
  abbrev pub after_set_rsp : ClientRw M → Option SetRsp → Option (Executed M)
  after_set_rsp k none = none
  after_set_rsp k (some s) =
      let parsed = with_rw s.rw k in
      if is_err s.ret
      then some (executed parsed.con.ei.tas_err parsed s.host)
      else some (noted no_error parsed s.host)

module _ {M : Type 0} (mb_if : MailboxIf M) where
  -- The request of a handler that holds the transactions.
  unfoldable pub execute_rq : Mem ℕ → Rw → ClientRw M → Option (Executed M)
  unfolding rw_get_rq rw_set_rsp
  execute_rq host r k =
      let rq = rw_get_rq r in
      let built = with_rw rq.1 k in
      let a = mb_if.execute rq.0.rq built.rsp_buf rq.0.num_pl2_pkt built.con.mailbox in
      if a.ret
      then after_set_rsp (received a built)
          (rw_set_rsp (a.num_bytes / 4 + 2) a.rsp a.num_bytes (shared rq.1 built) host)
      else some (noted err_server_connection (received a built) host)

  abbrev pub after_set_trans :
      Mem ℕ → List Trans → ClientRw M → Option (Bool × Rw) → Option (Executed M)
  after_set_trans host ts k none = none
  after_set_trans host ts k (some (false, r)) =
      some (executed err_fn_param (with_info (not_added ts) (with_rw r k)) host)
  after_set_trans host ts k (some (true, r)) = execute_rq host r (with_rw r k)

  abbrev pub with_session : Mem ℕ → List Trans → ClientRw M → Option Rw → Option (Executed M)
  with_session host ts k none = some (executed err_fn_usage (with_info not_started k) host)
  with_session host ts k (some r) = after_set_trans host ts k (rw_set_trans host (shared r k) ts)

  unfoldable pub execute_trans : Mem ℕ → List Trans → ClientRw M → Option (Executed M)
  unfolding rw_set_trans execute_rq
  execute_trans host ts k = with_session host ts k k.tph_rw
