-- ===== src/ServerCon/Connected.antt =====
-- What `set_pkt_rsp_server_connect` and `set_pkt_rsp_device_connect` of CTasPktHandlerServerCon leave
-- (src/tas_client/tas_pkt_handler_server_con.cpp).
use tas_client_api.Prelude.{
  ℕ, ◌+◌, ◌-◌, ◌*◌, ◌/◌, ◌^◌, ◌<◌, ◌≡◌, ◌≢◌, ◌↔◌, refl, ap, ◌⊎◌, inl, inr, arith, true, false, ◌||◌,
  not, Mem, ◌==◌, ◌!=◌, byte0, byte1, byte3, half0, if-lem,
}
use tas_client_api.Pkt.Cmd
use tas_client_api.Pkt.Err
use tas_client_api.ErrorInfo.{TasReturn, is_err, ErrorInfo, no_error}
use tas_client_api.Base.Errors.{err_connection_protocol}
use tas_client_api.Base.Ping.{handle_pkt_error}
use tas_client_api.Base.Accepted.{handle_pkt_error-err}
use tas_client_api.ServerCon.Handler.{ServerCon, zeros, set_error, leave}
use tas_client_api.ServerCon.Connecting.{
  Connection, connection, rsp_server_connect_size, take_server_info, take_server_connect,
  set_pkt_rsp_server_connect,
}
use tas_client_api.ServerCon.Device.{
  DeviceConnection, device_connection, connect_failed, device_connect_error,
  set_pkt_rsp_device_connect,
}

-- The answer of a server: the length, the header, and an error code that the protocol knows.
pub record IsServerAnswer (pkt : Mem ℕ) : Type 0 where
  pub length : pkt 0 ≡ 140
  pub wl : byte0 (pkt 1) ≡ 33
  pub command : byte1 (pkt 1) ≡ Cmd.pl1_server_connect

-- The information on the server that the handler has, and the challenge.
abbrev HasServer : Mem ℕ → ServerCon → Type 0
HasServer pkt c =
    ((k : ℕ) → k < 30 → k ≢ 15 → k ≢ 27 → c.server_info k ≡ pkt (3 + k))
    × (c.server_info 15 < 2 ^ 24)
    × (c.server_info 27 < 2 ^ 24)
    × (c.server_challenge ≡ pkt 33 + 2 ^ 32 * pkt 34)

-- Nothing is known of a server.
abbrev HasNoServer : ServerCon → Type 0
HasNoServer c = (c.server_info ≡ zeros) × (c.server_challenge ≡ 0)

abbrev pub IsServerOutcome : Mem ℕ → Connection → Type 0
IsServerOutcome pkt r =
    (r.ret ≡ r.handler.base.ei.tas_err)
    × (r.challenge ≡ 0)
    × (((is_err r.ret ≡ true) × HasNoServer r.handler)
        ⊎ (IsServerAnswer pkt
            × HasServer pkt r.handler
            × ((is_err r.ret ≡ false) ↔ (byte3 (pkt 1) ≡ Err.pl_no_error))))

take_server_info-HasServer : (pkt : Mem ℕ) (c : ServerCon) → HasServer pkt (take_server_info pkt c)
take_server_info-HasServer pkt c =
    (λ k. λ h. λ a. λ b. ground arith, ground arith, ground arith, refl)

take_server_connect-Outcome :
    (pkt : Mem ℕ) (err : ℕ) (c : ServerCon)
    → err ≡ byte3 (pkt 1)
    → IsServerAnswer pkt
    → HasServer pkt c
    → IsServerOutcome pkt (connection (take_server_connect err c))
unfolding take_server_connect
take_server_connect-Outcome pkt err c e answer server =
    if-lem P (err == Err.pl_no_error)
      (λ h. (refl, refl, inr (answer, server, ((λ x. ground arith), λ x. refl))))
      (λ h.
        if-lem P (err == Err.pl1_server_locked)
          (λ l.
            (refl, refl, inr (answer, server, ((λ x. absurd (ground arith)), λ x. ground arith))))
          (λ l.
            (refl, refl, inr (answer, server, ((λ x. absurd (ground arith)), λ x. ground arith)))))
  where
    P : TasReturn × ServerCon → Type 0
    P x = IsServerOutcome pkt (connection x)

-- On every branch of `set_pkt_rsp_server_connect` the code returned is the one noted, and the
-- challenge that it sets is 0. Either an error is returned, and the handler knows nothing of a server;
-- or the packet has the length and the header of the answer, the handler has the information and the
-- challenge of the packet, with the two strings ended, and the call succeeds exactly if the packet
-- has no error.
pub set_pkt_rsp_server_connect-Outcome :
    (pkt : Mem ℕ) (c : ServerCon) → IsServerOutcome pkt (set_pkt_rsp_server_connect pkt c)
unfolding set_pkt_rsp_server_connect
set_pkt_rsp_server_connect-Outcome pkt c =
    if-lem P (pkt 0 != 4 + rsp_server_connect_size) (λ h. bad)
      (λ len.
        if-lem P
          (byte1 (pkt 1) != Cmd.pl1_server_connect
            || byte0 (pkt 1) != rsp_server_connect_size / 4 - 1)
          (λ h. bad)
          (λ head.
            if-lem P
              (not (
                byte3 (pkt 1) == Err.pl_no_error
                || byte3 (pkt 1) == Err.pl1_cmd_failed
                || byte3 (pkt 1) == Err.pl1_server_locked))
              (λ h. bad)
              (λ err.
                take_server_connect-Outcome pkt (byte3 (pkt 1)) (take_server_info pkt cleared) refl
                  (record { length = ground arith; wl = ground arith; command = ground arith })
                  (take_server_info-HasServer pkt cleared))))
  where
    P : Connection → Type 0
    P = IsServerOutcome pkt

    cleared : ServerCon
    cleared = record c { server_info = zeros; server_challenge = 0 }

    bad : P (connection (leave err_connection_protocol cleared))
    bad = (refl, refl, inl (refl, (refl, refl)))

-- The answer of a server that has connected to a device.
pub record IsDeviceAnswer (pkt : Mem ℕ) : Type 0 where
  pub length : pkt 0 ≡ 16
  pub wl : byte0 (pkt 1) ≡ 2
  pub command : byte1 (pkt 1) ≡ Cmd.pl1_device_connect
  pub err : byte3 (pkt 1) ≡ Err.pl_no_error

-- The features and the device type are 0 or those of the packet. Either an error is returned; or
-- none is noted, they are those of the packet, and nothing else of the handler changes.
abbrev pub IsDeviceOutcome : Mem ℕ → ServerCon → DeviceConnection → Type 0
IsDeviceOutcome pkt c r =
    (r.ret ≡ r.handler.base.ei.tas_err)
    × (((r.dev_con_feat_used ≡ 0) × (r.device_type ≡ 0))
        ⊎ ((r.dev_con_feat_used ≡ half0 (pkt 2)) × (r.device_type ≡ pkt 3)))
    × ((is_err r.ret ≡ true)
        ⊎ (IsDeviceAnswer pkt
            × (r.handler ≡ set_error no_error c)
            × (r.dev_con_feat_used ≡ half0 (pkt 2))
            × (r.device_type ≡ pkt 3)))

connect_failed-err :
    (used device_type : ℕ) (c : ServerCon)
    → is_err (connect_failed used device_type c).tas_err ≡ true
unfolding connect_failed
connect_failed-err used device_type c =
    if-lem (λ (ei : ErrorInfo). is_err ei.tas_err ≡ true) (device_type != 0) (λ h. refl) (λ h. refl)

device_connect_error-cases :
    (err used device_type : ℕ) (c : ServerCon)
    → (is_err (device_connect_error err used device_type c).tas_err ≡ true)
      ⊎ ((err ≡ Err.pl_no_error) × (device_connect_error err used device_type c ≡ no_error))
unfolding device_connect_error
device_connect_error-cases err used device_type c =
    if-lem P (err == Err.pl_no_error) (λ ok. inr (ground arith, refl))
      (λ e0.
        if-lem P (err == Err.pl1_dev_access) (λ e. inl refl)
          (λ e1.
            if-lem P (err == Err.pl1_dev_locked) (λ e. inl refl)
              (λ e2.
                if-lem P (err == Err.pl1_cmd_failed)
                  (λ e. inl (connect_failed-err used device_type c)) (λ e. inl refl))))
  where
    P : ErrorInfo → Type 0
    P ei = (is_err ei.tas_err ≡ true) ⊎ ((err ≡ Err.pl_no_error) × (ei ≡ no_error))

-- On every branch of `set_pkt_rsp_device_connect` the code returned is the one noted, and the features
-- and the device type are both 0 or those of the packet. Either it is an error; or no error is noted,
-- nothing else of the handler changes, the features and the device type are those of the packet, and
-- the packet has the length, the header and the error code of a success.
pub set_pkt_rsp_device_connect-Outcome :
    (pkt : Mem ℕ) (c : ServerCon) → IsDeviceOutcome pkt c (set_pkt_rsp_device_connect pkt c)
unfolding set_pkt_rsp_device_connect
set_pkt_rsp_device_connect-Outcome pkt c =
    if-lem P (pkt 0 != 4 + 12)
      (λ h.
        none_used (handle_pkt_error pkt Cmd.pl1_device_connect)
          (handle_pkt_error-err pkt Cmd.pl1_device_connect))
      (λ len.
        if-lem P (byte1 (pkt 1) != Cmd.pl1_device_connect || byte0 (pkt 1) != 12 / 4 - 1)
          (λ h. none_used err_connection_protocol refl)
          (λ head.
            taken len head (device_connect_error-cases (byte3 (pkt 1)) (half0 (pkt 2)) (pkt 3) c)))
  where
    P : DeviceConnection → Type 0
    P = IsDeviceOutcome pkt c

    none_used : (ei : ErrorInfo) → is_err ei.tas_err ≡ true → P (device_connection 0 0 ei c)
    none_used ei e = (refl, inl (refl, refl), inl e)

    ei : ErrorInfo
    ei = device_connect_error (byte3 (pkt 1)) (half0 (pkt 2)) (pkt 3) c

    taken :
        (pkt 0 != 4 + 12) ≡ false
        → (byte1 (pkt 1) != Cmd.pl1_device_connect || byte0 (pkt 1) != 12 / 4 - 1) ≡ false
        → (is_err ei.tas_err ≡ true) ⊎ ((byte3 (pkt 1) ≡ Err.pl_no_error) × (ei ≡ no_error))
        → P (device_connection (half0 (pkt 2)) (pkt 3) ei c)
    taken len head (inl e) = (refl, inr (refl, refl), inl e)
    taken len head (inr (ok, e)) = (
      refl,
      inr (refl, refl),
      inr (
        record { length = ground arith; wl = ground arith; command = ground arith; err = ok },
        ap (λ x. set_error x c) e,
        refl,
        refl,
      ),
    )
