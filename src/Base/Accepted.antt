-- ===== src/Base/Accepted.antt =====
-- The branches of `set_pkt_rsp_ping` (src/tas_client/tas_pkt_handler_base.cpp).
use tas_client_api.Prelude.{
  if-lem, ℕ, ◌≡◌, refl, ◌⊎◌, inl, inr, arith, Mem, true, false, byte0, byte1, byte3, half0, half1,
  ltb, ◌%◌, ◌/◌, ◌+◌, ◌-◌, ◌≤◌, ◌==◌, ◌!=◌, ◌||◌, not,
}
use tas_client_api.Pkt.Err
use tas_client_api.ErrorInfo.{TasReturn, err_fn_param, is_err, ErrorInfo, error, no_error}
use tas_client_api.ConInfo
use tas_client_api.ConInfo.{ConInfo, IsAgreed}
use tas_client_api.Base.Errors.{err_connection_protocol}
use tas_client_api.Base.Ping.{
  Base, ClientType, client_unknown, client_rw, client_chl, client_trc, cmd_failed, ping_size,
  protoc_ver, is_ping_err, is_bad_pkt_size, is_bad_msg_length, handle_pkt_error, con_info_of,
  set_pkt_rsp_ping, refuse, take_con_info, take_ping,
}

-- The sizes of a connection information that the client takes.
pub record IsSized (pkt : Mem ℕ) : Type 0 where
  pub agreed : IsAgreed (con_info_of pkt)
  pub rq_words : pkt 3 % 4 ≡ 0
  pub rsp_words : pkt 4 % 4 ≡ 0
  pub c2d : half0 (pkt 13) ≤ 1024
  pub d2c : half1 (pkt 13) ≤ 1024
  pub c2d_words : half0 (pkt 13) % 4 ≡ 0
  pub d2c_words : half1 (pkt 13) % 4 ≡ 0

-- The answer of a server that the client takes: its lengths, command, version and sizes.
pub record IsAnswer (cmd : ℕ) (client_type : ClientType) (pkt : Mem ℕ) : Type 0 where
  pub length : pkt 0 ≡ 4 + ping_size client_type
  pub wl : byte0 (pkt 1) ≡ ping_size client_type / 4 - 1
  pub command : byte1 (pkt 1) ≡ cmd
  pub version_min : byte0 (pkt 2) ≤ protoc_ver
  pub version_max : protoc_ver ≤ byte1 (pkt 2)
  pub err : byte3 (pkt 1) ≡ Err.pl_no_error
  pub sized : IsSized pkt

pub handle_pkt_error-err :
    (pkt : Mem ℕ) (cmd : ℕ) → is_err (handle_pkt_error pkt cmd).tas_err ≡ true
unfolding handle_pkt_error
handle_pkt_error-err pkt cmd = ground arith

cmd_failed-err : (client_type : ClientType) → is_err (cmd_failed client_type).tas_err ≡ true
cmd_failed-err client_unknown = refl
cmd_failed-err client_rw = refl
cmd_failed-err client_chl = refl
cmd_failed-err client_trc = refl

-- What a call leaves: the error that it returns and no connection information, or success with the
-- connection information of the packet, for which `Q` holds.
abbrev pub IsOutcome : Mem ℕ → Type 0 → TasReturn × Base → Type 0
IsOutcome pkt Q (ret, b) =
    (ret ≡ b.ei.tas_err)
    × (((is_err ret ≡ true) × (b.con_info ≡ ConInfo.empty))
        ⊎ ((b.ei ≡ no_error) × (b.con_info ≡ con_info_of pkt) × Q))

IsOutcome-map :
    (pkt : Mem ℕ) (Q R : Type 0) (x : TasReturn × Base)
    → (Q → R)
    → IsOutcome pkt Q x
    → IsOutcome pkt R x
IsOutcome-map pkt Q R (ret, b) f (e, inl h) = (e, inl h)
IsOutcome-map pkt Q R (ret, b) f (e, inr (h, k, q)) = (e, inr (h, k, f q))

refused :
    (pkt : Mem ℕ) (Q : Type 0) (ei : ErrorInfo) (b : Base)
    → is_err ei.tas_err ≡ true
    → IsOutcome pkt Q (refuse ei b)
refused pkt Q ei b e = (refl, inl (e, refl))

sized :
    (pkt : Mem ℕ)
    → is_bad_pkt_size (pkt 3) ≡ false
    → is_bad_pkt_size (pkt 4) ≡ false
    → is_bad_msg_length (half0 (pkt 13)) ≡ false
    → is_bad_msg_length (half1 (pkt 13)) ≡ false
    → IsSized pkt
unfolding con_info_of
sized pkt rq rsp c2d d2c = record {
  agreed = record {
    rq_min = ground arith;
    rq_max = ground arith;
    rsp_min = ground arith;
    rsp_max = ground arith;
  };
  rq_words = ground arith;
  rsp_words = ground arith;
  c2d = ground arith;
  d2c = ground arith;
  c2d_words = ground arith;
  d2c_words = ground arith;
}

take_con_info-Outcome : (pkt : Mem ℕ) (b : Base) → IsOutcome pkt (IsSized pkt) (take_con_info pkt b)
unfolding take_con_info
take_con_info-Outcome pkt b =
    if-lem P (is_bad_pkt_size (pkt 3)) (λ h. bad)
      (λ rq.
        if-lem P (is_bad_pkt_size (pkt 4)) (λ h. bad)
          (λ rsp.
            if-lem P (is_bad_msg_length (half0 (pkt 13))) (λ h. bad)
              (λ c2d.
                if-lem P (is_bad_msg_length (half1 (pkt 13))) (λ h. bad)
                  (λ d2c. (refl, inr (refl, refl, sized pkt rq rsp c2d d2c))))))
  where
    P : TasReturn × Base → Type 0
    P = IsOutcome pkt (IsSized pkt)

    bad : P (refuse err_connection_protocol b)
    bad = refused pkt (IsSized pkt) err_connection_protocol b refl

take_ping-Outcome :
    (client_type : ClientType) (err : ℕ) (pkt : Mem ℕ) (b : Base)
    → IsOutcome pkt ((err ≡ Err.pl_no_error) × IsSized pkt) (take_ping client_type err pkt b)
unfolding take_ping
take_ping-Outcome client_type err pkt b =
    if-lem P (not (is_ping_err err)) (λ h. bad err_connection_protocol refl)
      (λ known.
        if-lem P (err == Err.pl1_session)
          (λ h. bad (error "ERROR: Session name or password" err_fn_param) refl)
          (λ e1.
            if-lem P (err == Err.pl_not_supported)
              (λ h. bad (error "ERROR: Parameter refused by server" err_fn_param) refl)
              (λ e2.
                if-lem P (err == Err.pl1_cmd_failed)
                  (λ h. bad (cmd_failed client_type) (cmd_failed-err client_type))
                  (λ e3.
                    IsOutcome-map pkt (IsSized pkt) _ (take_con_info pkt b) (λ q. (ground arith, q))
                      (take_con_info-Outcome pkt b)))))
  where
    P : TasReturn × Base → Type 0
    P = IsOutcome pkt ((err ≡ Err.pl_no_error) × IsSized pkt)

    bad : (ei : ErrorInfo) → is_err ei.tas_err ≡ true → P (refuse ei b)
    bad ei e = refused pkt ((err ≡ Err.pl_no_error) × IsSized pkt) ei b e

-- On every branch of `set_pkt_rsp_ping` the code returned is the one noted. Either it is an error,
-- and the connection information is empty; or no error is noted, the connection information is that
-- of the packet, and the packet has the length, the command, the protocol version, the error code
-- and the sizes that the protocol demands.
pub set_pkt_rsp_ping-Outcome :
    (cmd : ℕ) (client_type : ClientType) (pkt : Mem ℕ) (b : Base)
    → IsOutcome pkt (IsAnswer cmd client_type pkt) (set_pkt_rsp_ping cmd client_type pkt b)
unfolding set_pkt_rsp_ping
set_pkt_rsp_ping-Outcome cmd client_type pkt b =
    if-lem P (pkt 0 != 4 + ping_size client_type)
      (λ h. bad (handle_pkt_error pkt cmd) (handle_pkt_error-err pkt cmd))
      (λ len.
        if-lem P (byte1 (pkt 1) != cmd || byte0 (pkt 1) != ping_size client_type / 4 - 1)
          (λ h. bad err_connection_protocol refl)
          (λ head.
            if-lem P (ltb protoc_ver (byte0 (pkt 2)) || ltb (byte1 (pkt 2)) protoc_ver)
              (λ h. bad err_connection_protocol refl)
              (λ ver.
                IsOutcome-map pkt _ (IsAnswer cmd client_type pkt)
                  (take_ping client_type (byte3 (pkt 1)) pkt b)
                  (λ q. record {
                    length = ground arith;
                    wl = ground arith;
                    command = ground arith;
                    version_min = ground arith;
                    version_max = ground arith;
                    err = q.0;
                    sized = q.1;
                  })
                  (take_ping-Outcome client_type (byte3 (pkt 1)) pkt b))))
  where
    P : TasReturn × Base → Type 0
    P = IsOutcome pkt (IsAnswer cmd client_type pkt)

    bad : (ei : ErrorInfo) → is_err ei.tas_err ≡ true → P (refuse ei b)
    bad ei e = refused pkt (IsAnswer cmd client_type pkt) ei b e
