-- ===== src/Net/Resolver.antt =====
-- The connecting of CTasConnSocket (src/tas_socket/tas_conn_socket.cpp), as it is built for systems
-- other than Windows, over the calls of the operating system. `S` is the state of everything behind
-- them. A descriptor that is none is INVALID_SOCKET; a time that is none is negative.
use tas_client_api.Prelude.{
  ℕ, ◌-◌, Bool, true, false, not, ◌&&◌, Option, none, some, List, [], ◌∷◌, ltb, ◌==◌, if◌then◌else◌,
}

-- The parts of `addrinfo` that the source reads, and the address of `ai_addr`.
pub record AddrInfo : Type 0 where
  pub ai_family : ℕ
  pub ai_socktype : ℕ
  pub ai_protocol : ℕ
  pub sin_addr : ℕ

-- The results of `::connect`: 0; an error that is EWOULDBLOCK or EINPROGRESS; any other error.
pub data Connected : Type 0 where
  connected : Connected
  pending : Connected
  failed : Connected

-- `set_nodelay` is `setsockopt` of TCP_NODELAY, whose result only an assertion looks at.
-- `select_write` gives whether `::select` returned 0, and whether the descriptor is then in the set;
-- `so_error` is none if `getsockopt` fails.
pub record Calls (S : Type 0) : Type 0 where
  pub af_inet : ℕ
  pub sock_stream : ℕ
  pub ipproto_tcp : ℕ
  pub getaddrinfo : List ℕ → S → Option (List AddrInfo) × S
  pub freeaddrinfo : List AddrInfo → S → S
  pub socket : ℕ → ℕ → S → Option ℕ × S
  pub set_nodelay : Option ℕ → S → S
  pub close : Option ℕ → S → S
  pub ioctl_nonblock : ℕ → Bool → S → Bool × S
  pub connect : ℕ → ℕ → ℕ → S → Connected × S
  pub select_write : ℕ → ℕ → S → Bool × Bool × S
  pub so_error : ℕ → S → Option ℕ × S
  pub now_ms : S → ℕ × S
  pub sleep_ms : ℕ → S → S

pub record ConnSocket (S : Type 0) : Type 0 where
  pub desc : Option ℕ
  pub last_tick : ℕ
  pub sys : S

module _ {S : Type 0} (calls : Calls S) where
  abbrev with_sys : S → ConnSocket S → ConnSocket S
  with_sys s k = record k { sys = s }

  -- The constructor of CTasTcpSocket, which is that of CTasSocket.
  abbrev pub new_tcp_socket : S → ConnSocket S
  new_tcp_socket s =
      let r = calls.socket calls.sock_stream calls.ipproto_tcp s in
      record { desc = r.0; last_tick = 0; sys = calls.set_nodelay r.0 r.1 }

  -- `CTasSocket::close`
  abbrev pub close : ConnSocket S → ConnSocket S
  close k = record k { desc = none; sys = calls.close k.desc k.sys }

  -- `CTasSocket::get_new_socket_desc`, which is called without a descriptor only.
  abbrev pub get_new_socket_desc : ℕ → ℕ → ConnSocket S → ConnSocket S
  get_new_socket_desc type protocol k =
      let r = calls.socket type protocol k.sys in record k { desc = r.0; sys = r.1 }

  -- `mSleepMs`. The clock does not go back.
  unfoldable pub sleep_ms : ℕ → ConnSocket S → ConnSocket S
  sleep_ms timeout_ms k =
      let start = calls.now_ms k.sys in
      let diff = start.0 - k.last_tick in
      let slept =
        if ltb diff timeout_ms then calls.sleep_ms (timeout_ms - diff) start.1 else start.1 in
      let end = calls.now_ms slept in record k { last_tick = end.0; sys = end.1 }

  -- A descriptor in the set: its error, if there is one, makes the connecting fail, after a while.
  unfoldable pub after_error : ℕ → ConnSocket S → Option ℕ × S → Bool × ConnSocket S
  after_error timeout_ms k (none, s) = (true, with_sys s k)
  after_error timeout_ms k (some e, s) =
      if e == 0 then (true, with_sys s k) else (false, sleep_ms timeout_ms (with_sys s k))

  -- The result of `::select`: it fails if the time ran out, and if there is an error.
  unfoldable pub after_select : ℕ → ℕ → ConnSocket S → Bool × Bool × S → Bool × ConnSocket S
  unfolding after_error
  after_select d timeout_ms k (timed_out, is_set, s) =
      let checked = after_error timeout_ms (with_sys s k) (calls.so_error d s) in
      if is_set then (not timed_out && checked.0, checked.1) else (not timed_out, with_sys s k)

  -- What follows `::connect`: whether `ret` stays 0.
  unfoldable pub after_connect : ℕ → ℕ → ConnSocket S → Connected × S → Bool × ConnSocket S
  unfolding after_select
  after_connect d timeout_ms k (connected, s) = (true, with_sys s k)
  after_connect d timeout_ms k (failed, s) = (false, sleep_ms timeout_ms (with_sys s k))
  after_connect d timeout_ms k (pending, s) =
      after_select d timeout_ms k (calls.select_write d timeout_ms s)

  -- The original state is restored, whether or not the connecting has failed.
  abbrev restore : ℕ → Bool × ConnSocket S → Bool × ConnSocket S
  restore d (ret, k) = let r = calls.ioctl_nonblock d false k.sys in (r.0 && ret, with_sys r.1 k)

  -- `mConnectNonblock`
  unfoldable pub connect_nonblock : ℕ → ℕ → ℕ → ℕ → ConnSocket S → Bool × ConnSocket S
  unfolding after_connect
  connect_nonblock d addr port timeout_ms k =
      let r = calls.ioctl_nonblock d true k.sys in
      let done = restore d (after_connect d timeout_ms k (calls.connect d addr port r.1)) in
      if r.0 then done else (false, with_sys r.1 k)

  abbrev is_connected : Connected → Bool
  is_connected connected = true
  is_connected pending = false
  is_connected failed = false

  -- The connecting of the descriptor `d` to an address.
  unfoldable pub attempt : ℕ → AddrInfo → ℕ → Option ℕ → ConnSocket S → Bool × ConnSocket S
  unfolding connect_nonblock
  attempt d a port none k =
      let r = calls.connect d a.sin_addr port k.sys in (is_connected r.0, with_sys r.1 k)
  attempt d a port (some ms) k = connect_nonblock d a.sin_addr port ms k

  -- An address of the loop; `rest` are the rounds behind it.
  abbrev pub after_attempt :
      (ConnSocket S → Bool × ConnSocket S) → Bool × ConnSocket S → Bool × ConnSocket S
  after_attempt rest (true, k) = (true, k)
  after_attempt rest (false, k) = rest (close k)

  unfoldable pub on_desc :
      AddrInfo
      → ℕ
      → Option ℕ
      → (ConnSocket S → Bool × ConnSocket S)
      → Option ℕ
      → ConnSocket S
      → Bool × ConnSocket S
  unfolding attempt
  on_desc a port timeout_ms rest none k = rest k
  on_desc a port timeout_ms rest (some d) k = after_attempt rest (attempt d a port timeout_ms k)

  -- A descriptor that was closed in a round before is made anew.
  abbrev pub renew : AddrInfo → ConnSocket S → ConnSocket S
  renew a k = elim k.desc [ none ↦ get_new_socket_desc a.ai_socktype a.ai_protocol k | some d ↦ k ]

  -- The loop over the addresses: whether the socket is connected.
  unfoldable pub connect_loop : List AddrInfo → ℕ → Option ℕ → ConnSocket S → Bool × ConnSocket S
  unfolding on_desc
  connect_loop [] port timeout_ms k = (false, k)
  connect_loop (a ∷ others) port timeout_ms k =
      let rest = connect_loop others port timeout_ms in
      if a.ai_family == calls.af_inet
      then on_desc a port timeout_ms rest (renew a k).desc (renew a k)
      else rest k

  -- The addresses are given back where the socket is connected, and only there.
  abbrev pub after_loop : List AddrInfo → Bool × ConnSocket S → Bool × ConnSocket S
  after_loop res (false, k) = (false, k)
  after_loop res (true, k) = (true, with_sys (calls.freeaddrinfo res k.sys) k)

  abbrev pub resolved :
      ℕ → Option ℕ → ConnSocket S → Option (List AddrInfo) × S → Bool × ConnSocket S
  resolved port timeout_ms k (none, s) = (false, with_sys s k)
  resolved port timeout_ms k (some res, s) =
      after_loop res (connect_loop res port timeout_ms (with_sys s k))

  unfoldable pub connect : List ℕ → ℕ → Option ℕ → ConnSocket S → Bool × ConnSocket S
  unfolding connect_loop
  connect hostname port timeout_ms k = resolved port timeout_ms k (calls.getaddrinfo hostname k.sys)
