-- ===== src/ServerCon/Requests.antt =====
-- The requests of CTasPktHandlerServerCon (src/tas_client/tas_pkt_handler_server_con.cpp) as the
-- mailbox reads them.
use tas_client_api.Prelude.{
  ℕ, ◌+◌, ◌-◌, ◌*◌, ◌/◌, ◌≤◌, ◌<◌, ◌≡◌, refl, ◌∙◌, arith, Mem, List, store, ltb, if-lem, byte0,
  byte1, bytes4, halves2, u8, memcpy-words_below,
}
use tas_client_api.Pkt.Cmd
use tas_client_api.Base.Ping.{ClientType}
use tas_client_api.Net.Request.{IsFramed}
use tas_client_api.ServerCon.Handler.{ServerCon}
use tas_client_api.ServerCon.Connecting.{
  get_pkt_rq_server_connect, get_pkt_rq_session_start, client_type_code,
}
use tas_client_api.ServerCon.Targets.{get_pkt_rq_get_targets, lesser}
use tas_client_api.ServerCon.Clients.{get_pkt_rq_get_target_clients}
use tas_client_api.ServerCon.Device.{
  get_pkt_rq_device_unlock_set_key, get_pkt_rq_device_connect, get_pkt_rq_device_reset_count,
  unlock_max_key_len,
}

-- One packet, whose length is that of its header, with the command, and within the buffer.
pub record IsRequest (cmd : ℕ) (c : ServerCon) : Type 0 where
  pub framed : IsFramed c.base.rq_buf 1 0
  pub length : c.base.rq_buf 0 ≡ 4 + 4 * (byte0 (c.base.rq_buf 1) + 1)
  pub command : byte1 (c.base.rq_buf 1) ≡ cmd
  pub room : c.base.rq_buf 0 ≤ 1088

request :
    (cmd : ℕ) (c : ServerCon) (len wl rest : ℕ)
    → c.base.rq_buf 0 ≡ len
    → c.base.rq_buf 1 ≡ wl + 256 * cmd + 65536 * rest
    → (wl < 256) × (cmd < 256)
    → len ≡ 4 + 4 * (wl + 1)
    → len ≤ 1088
    → IsRequest cmd c
request cmd c len wl rest e f (small, byte) g room = record {
  framed = (ground arith, ground arith, ground arith, ground arith, tt);
  length = ground arith;
  command = ground arith;
  room = ground arith;
}

key_request :
    (ulo : ℕ) (host : Mem ℕ) (key key_length : ℕ) (c : ServerCon)
    → key_length ≤ unlock_max_key_len
    → IsRequest Cmd.pl1_set_device_key (get_pkt_rq_device_unlock_set_key ulo host key key_length c)
unfolding get_pkt_rq_device_unlock_set_key
key_request ulo host key key_length c h =
    request Cmd.pl1_set_device_key (get_pkt_rq_device_unlock_set_key ulo host key key_length c)
      (12 + (key_length + 3) / 4 * 4) (1 + (key_length + 3) / 4) 0
      (if-lem (λ (m : Mem ℕ). m 0 ≡ 12 + (key_length + 3) / 4 * 4) (ltb 0 key_length)
        (λ e. memcpy-words_below host key len head 12 0 (omega arith) ∙ omega arith)
        (λ e. omega arith))
      (if-lem
        (λ (m : Mem ℕ). m 1 ≡ 1 + (key_length + 3) / 4 + 256 * Cmd.pl1_set_device_key + 65536 * 0)
        (ltb 0 key_length)
        (λ e. memcpy-words_below host key len head 12 1 (omega arith) ∙ omega arith)
        (λ e. omega arith))
      (omega arith, omega arith) (omega arith) (omega arith)
  where
    len : ℕ
    len = lesser key_length unlock_max_key_len

    head : Mem ℕ
    head =
        store
          (store (store (store (store c.base.rq_buf 0 (4 + 8 + (key_length + 3) / 4 * 4)) 1 0) 2 0)
            1 (bytes4 (u8 (8 / 4 - 1 + (key_length + 3) / 4)) Cmd.pl1_set_device_key 0 0))
          2 (halves2 ulo len)

-- Every request that the handler builds, for a key of at most 512 bytes and whatever the buffer held,
-- is one packet that the mailbox can send: of whole words, of the length that its header announces,
-- with the command of the call, and within the buffer of 1088 bytes.
pub requests-IsRequest :
    (client_type : ClientType) (name user pw : List ℕ) (pid start target param ulo option : ℕ)
    (host : Mem ℕ) (key key_length : ℕ) (c : ServerCon)
    → key_length ≤ unlock_max_key_len
    → IsRequest Cmd.pl1_server_connect (get_pkt_rq_server_connect name user pid c)
      × IsRequest Cmd.pl1_get_targets (get_pkt_rq_get_targets start c)
      × IsRequest Cmd.pl1_get_clients (get_pkt_rq_get_target_clients name start c)
      × IsRequest Cmd.pl1_session_start
          (get_pkt_rq_session_start client_type name user pw target param c)
      × IsRequest Cmd.pl1_set_device_key
          (get_pkt_rq_device_unlock_set_key ulo host key key_length c)
      × IsRequest Cmd.pl1_device_connect (get_pkt_rq_device_connect option c)
      × IsRequest Cmd.pl1_device_reset_count (get_pkt_rq_device_reset_count c)
unfolding get_pkt_rq_server_connect get_pkt_rq_get_targets get_pkt_rq_get_target_clients
    get_pkt_rq_session_start get_pkt_rq_device_connect get_pkt_rq_device_reset_count
requests-IsRequest client_type name user pw pid start target param ulo option host key key_length c
      h =
    (
      request Cmd.pl1_server_connect (get_pkt_rq_server_connect name user pid c) 60 13 0 refl refl
          (omega arith, omega arith) refl (omega arith),
      request Cmd.pl1_get_targets (get_pkt_rq_get_targets start c) 8 0 (u8 start) refl (omega arith)
          (omega arith, omega arith) refl (omega arith),
      request Cmd.pl1_get_clients (get_pkt_rq_get_target_clients name start c) 72 16 (u8 start) refl
          (omega arith) (omega arith, omega arith) refl (omega arith),
      request Cmd.pl1_session_start
          (get_pkt_rq_session_start client_type name user pw target param c) 116 27
          (256 * u8 (client_type_code client_type)) refl (omega arith) (omega arith, omega arith)
          refl (omega arith),
      key_request ulo host key key_length c h,
      request Cmd.pl1_device_connect (get_pkt_rq_device_connect option c) 12 1 0 refl refl
          (omega arith, omega arith) refl (omega arith),
      request Cmd.pl1_device_reset_count (get_pkt_rq_device_reset_count c) 8 0 0 refl refl
          (omega arith, omega arith) refl (omega arith),
    )
