-- ===== src/Rw/Session.antt =====
-- The beginning of a session: from the answer to a ping to the request builder
-- (src/tas_client/tas_pkt_handler_base.cpp and tas_pkt_handler_rw.cpp).
use tas_client_api.Prelude.{ℕ, ◌≡◌, sym, ap, ◌∙◌, subst, Mem, inl, inr, true, false, ◌≢◌}
use tas_client_api.ErrorInfo.{err_none, is_err}
use tas_client_api.ConInfo.{IsAgreed}
use tas_client_api.Base.Ping.{Base, ClientType, set_pkt_rsp_ping}
use tas_client_api.Base.Accepted.{set_pkt_rsp_ping-Outcome}
use tas_client_api.Rw.State.{Rw, construct, rw_start}
use tas_client_api.Rw.Start.{IsPrepared, start-IsPrepared}

-- After a ping or a session start that `set_pkt_rsp_ping` takes without error, the object that is
-- constructed from the connection information and started has this connection information, packets
-- and buffers of at least 128 bytes, blocks of 8 to 1024 bytes, no transaction, and arrays of as many
-- transactions as the server allows, which may be none.
pub ping-start-IsPrepared :
    (cmd : ℕ) (client_type : ClientType) (pkt : Mem ℕ) (b : Base) (r : Rw)
    → (set_pkt_rsp_ping cmd client_type pkt b).0 ≡ err_none
    → IsPrepared
        (rw_start (construct r (set_pkt_rsp_ping cmd client_type pkt b).1.con_info))
        (set_pkt_rsp_ping cmd client_type pkt b).1.con_info
ping-start-IsPrepared cmd client_type pkt b r ok =
    elim (set_pkt_rsp_ping-Outcome cmd client_type pkt b).1 [
      | inl (e, h) ↦ absurd (wrong (sym e ∙ ap is_err ok))
      | inr (e, same, q) ↦ start-IsPrepared r _ (subst IsAgreed (sym same) q.sized.agreed)
    ]
  where
    wrong : true ≢ false
    wrong e = cc
