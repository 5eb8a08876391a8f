-- ===== src/Net/Mailbox.antt =====
-- CTasPktMailboxSocket (src/tas_client/tas_pkt_mailbox_socket.cpp and .h). The caller's buffers are
-- words in memory; `rsp_buf` is the one that `mRspBuf` points to.
use tas_client_api.Prelude.{
  ℕ, zero, suc, ◌+◌, ◌*◌, ◌/◌, ◌%◌, Bool, true, false, ◌||◌, Option, none, some, List, Mem, store,
  ltb, ◌!=◌, if◌then◌else◌, u32, sub32,
}
use tas_client_api.Net.Os.{Os}
use tas_client_api.Net.Socket.{send, recv, time_of, size_of}

pub record Mailbox (S : Type 0) : Type 0 where
  -- `mSocket != nullptr`
  pub connected : Bool
  pub timeout_receive_ms : ℕ
  pub max_num_bytes_rsp : ℕ
  pub rsp_buf : Mem ℕ
  pub num_bytes_rsp : ℕ
  pub sys : S

-- What `execute` and `receive` return and set.
pub record Answer (S : Type 0) : Type 0 where
  pub ret : Bool
  pub num_bytes : ℕ
  pub mailbox : Mailbox S

module _ {S : Type 0} where
  unfoldable pub config : ℕ → ℕ → Mailbox S → Mailbox S
  config timeout_receive_ms max_num_bytes_rsp m = record m {
    timeout_receive_ms = timeout_receive_ms;
    max_num_bytes_rsp = max_num_bytes_rsp;
  }

module _ {S : Type 0} (os : Os S) where
  -- `mSocketDisconnect`: the destructor of a socket closes it.
  unfoldable pub socket_disconnect : Mailbox S → Mailbox S
  socket_disconnect m =
      if m.connected then record m { connected = false; sys = os.close m.sys } else m

  -- A new socket is there, whether or not it connects.
  unfoldable pub server_connect : List ℕ → ℕ → Mailbox S → Bool × Mailbox S
  server_connect ip_addr port_num m =
      let r = os.connect ip_addr port_num m.sys in (r.0, record m { connected = true; sys = r.1 })

  -- `<= 0`, for the result of `send` and `recv`.
  abbrev pub is_failure : Option ℕ → Bool
  is_failure none = true
  is_failure (some zero) = true
  is_failure (some (suc n)) = false

  -- `mSocketSend` of `num_bytes` bytes of `rq` from word `w` on. The default of the time is -1.
  unfoldable pub socket_send : Mem ℕ → ℕ → ℕ → Mailbox S → Bool × Mailbox S
  unfolding send socket_disconnect
  socket_send rq w num_bytes m =
      let r = send os rq (4 * w) (size_of num_bytes) none m.sys in
      let sent = record m { sys = r.1 } in
      if is_failure r.0 then (false, socket_disconnect sent) else (true, sent)

  -- `mSocketReceive`
  unfoldable pub socket_receive : ℕ → ℕ → Mailbox S → Bool × Mailbox S
  unfolding recv socket_disconnect
  socket_receive w num_bytes m =
      let r =
        recv os (store m.rsp_buf w 0) (4 * w) (size_of num_bytes) (time_of m.timeout_receive_ms)
          m.sys in
      let received = record m { rsp_buf = r.buf; sys = r.sys } in
      if is_failure r.ret
      then (false, socket_disconnect received)
      else (received.rsp_buf w != 0, received)

  -- What follows the receipt of the rest of a packet of `pkt_size` bytes.
  abbrev pub finish_pl2_pkt : ℕ → Bool × Mailbox S → Bool × Mailbox S
  finish_pl2_pkt pkt_size (false, m) = (false, socket_disconnect m)
  finish_pl2_pkt pkt_size (true, m) =
      (true, record m { num_bytes_rsp = u32 (m.num_bytes_rsp + pkt_size) })

  -- A size of a packet that begins at word `w` that the mailbox refuses.
  abbrev pub is_bad_size : ℕ → ℕ → ℕ → Bool
  is_bad_size pkt_size w max_num_bytes_rsp =
      pkt_size % 4 != 0 || ltb pkt_size 8 || ltb max_num_bytes_rsp (u32 (pkt_size + u32 (w * 4)))

  -- What follows the receipt of the size of the packet that begins at word `w`.
  unfoldable pub take_size : ℕ → Bool × Mailbox S → Bool × Mailbox S
  unfolding socket_receive socket_disconnect
  take_size w (false, m) = (false, m)
  take_size w (true, m) =
      let pkt_size = m.rsp_buf w in
      if is_bad_size pkt_size w m.max_num_bytes_rsp
      then (false, socket_disconnect m)
      else finish_pl2_pkt pkt_size (socket_receive (w + 1) (sub32 pkt_size 4) m)

  -- `mReceivePl2Pkt`
  unfoldable pub receive_pl2_pkt : Mailbox S → Bool × Mailbox S
  unfolding socket_receive take_size
  receive_pl2_pkt m = let w = m.num_bytes_rsp / 4 in take_size w (socket_receive w 4 m)

  abbrev pub send_rest : (Mailbox S → Bool × Mailbox S) → Bool × Mailbox S → Bool × Mailbox S
  send_rest rest (false, m) = (false, m)
  send_rest rest (true, m) = rest m

  -- The loop of `send` over the packets of `rq` from word `w` on.
  unfoldable pub send_loop : ℕ → ℕ → Mem ℕ → Mailbox S → Bool × Mailbox S
  unfolding socket_send
  send_loop zero w rq m = (true, m)
  send_loop (suc p) w rq m =
      send_rest (send_loop p (u32 (w + rq w / 4)) rq) (socket_send rq w (rq w) m)

  unfoldable pub send_pkts : Mem ℕ → ℕ → Mailbox S → Bool × Mailbox S
  unfolding send_loop
  send_pkts rq num_pl2_pkt m = if m.connected then send_loop num_pl2_pkt 0 rq m else (false, m)

  -- The loop of `execute` over the packets of the response.
  unfoldable pub receive_loop : ℕ → Mailbox S → Bool × Mailbox S
  unfolding receive_pl2_pkt
  receive_loop zero m = (true, m)
  receive_loop (suc p) m = send_rest (receive_loop p) (receive_pl2_pkt m)

  abbrev pub answer : Bool × Mailbox S → Answer S
  answer (false, m) = record { ret = false; num_bytes = 0; mailbox = m }
  answer (true, m) = record { ret = true; num_bytes = m.num_bytes_rsp; mailbox = m }

  unfoldable pub receive : Mem ℕ → Mailbox S → Answer S
  unfolding receive_pl2_pkt
  receive rsp m =
      if m.connected
      then answer (receive_pl2_pkt (record m { rsp_buf = rsp; num_bytes_rsp = 0 }))
      else answer (false, record m { rsp_buf = rsp })

  abbrev pub after_send_pkts : ℕ → Bool × Mailbox S → Bool × Mailbox S
  after_send_pkts num_pl2_pkt (false, m) = (false, m)
  after_send_pkts num_pl2_pkt (true, m) = receive_loop num_pl2_pkt (record m { num_bytes_rsp = 0 })

  unfoldable pub execute : Mem ℕ → Mem ℕ → ℕ → Mailbox S → Answer S
  unfolding send_pkts receive_loop
  execute rq rsp num_pl2_pkt m =
      answer (after_send_pkts num_pl2_pkt (send_pkts rq num_pl2_pkt (record m { rsp_buf = rsp })))
