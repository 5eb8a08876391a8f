-- ===== src/Net/ConnectExamples.antt =====
-- Tests of the connecting, and the theorems at concrete inputs.
use tas_client_api.Prelude.{
  ℕ, ◌+◌, ◌-◌, ◌≡◌, refl, true, false, none, some, List, [], ◌∷◌, ◌==◌, if◌then◌else◌, inl, inr,
}
use tas_client_api.Net.Resolver.{
  AddrInfo, Connected, connected, pending, failed, Calls, ConnSocket, after_error, after_select,
  after_connect, connect_nonblock, attempt, on_desc, connect_loop, connect,
}
use tas_client_api.Net.Connecting.{IsConnected, connect-IsConnected}
use tas_client_api.Net.Os.{Os}
use tas_client_api.Net.Mailbox.{Mailbox, server_connect}
use tas_client_api.Net.Reaching.{with_connect, server_connect-connects}

-- An address of IPv4.
abbrev host : ℕ → AddrInfo
host n = record { ai_family = 2; ai_socktype = 1; ai_protocol = 6; sin_addr = n }

abbrev answer : ℕ → Connected
answer n = if n == 7 then connected else if n == 8 then pending else failed

-- A system that counts the lists of addresses that it has to be given back. Host 7 accepts at once,
-- host 8 after a while, and the others refuse; `::select` and `getsockopt` fail.
abbrev system : List AddrInfo → Calls ℕ
system res = record {
  af_inet = 2;
  sock_stream = 1;
  ipproto_tcp = 6;
  set_nodelay = λ d. λ s. s;
  getaddrinfo = λ name. λ s. (some res, s + 1);
  freeaddrinfo = λ l. λ s. s - 1;
  socket = λ type. λ protocol. λ s. (some 4, s);
  close = λ d. λ s. s;
  ioctl_nonblock = λ d. λ on. λ s. (true, s);
  connect = λ d. λ addr. λ port. λ s. (answer addr, s);
  select_write = λ d. λ ms. λ s. (false, true, s);
  so_error = λ d. λ s. (none, s);
  now_ms = λ s. (0, s);
  sleep_ms = λ ms. λ s. s;
}

abbrev fresh : ConnSocket ℕ
fresh = record { desc = some 3; last_tick = 0; sys = 0 }

-- The first host refuses, and the second accepts with a new descriptor.
second :
    connect (system (host 5 ∷ host 7 ∷ [])) [] 24817 none fresh
    ≡ (true, record { desc = some 4; last_tick = 0; sys = 0 })
unfolding connect connect_loop on_desc attempt
second = refl

-- Where each host refuses, the list of addresses is never given back.
leaked :
    connect (system (host 5 ∷ [])) [] 24817 none fresh
    ≡ (false, record { desc = none; last_tick = 0; sys = 1 })
unfolding connect connect_loop on_desc attempt
leaked = refl

-- A `::select` that fails counts as a connection.
select_failed : (connect (system (host 8 ∷ [])) [] 24817 (some 100) fresh).0 ≡ true
unfolding connect connect_loop on_desc attempt connect_nonblock after_connect after_select
    after_error
select_failed = refl

connect-IsConnected_example :
    IsConnected
      (system (host 5 ∷ []))
      24817
      none
      fresh
      (some (host 5 ∷ []), 1)
      (connect (system (host 5 ∷ [])) [] 24817 none fresh)
connect-IsConnected_example = connect-IsConnected (system (host 5 ∷ [])) [] 24817 none fresh

-- The calls on the connected socket are not used here.
abbrev idle : Os (ConnSocket ℕ)
idle = record {
  connect = λ host. λ port. λ k. (false, k);
  close = λ k. k;
  select_write = λ ms. λ k. k;
  select_read = λ ms. λ k. (true, k);
  send = λ bytes. λ k. (none, k);
  recv = λ n. λ k. (none, k);
}

abbrev mailbox : Mailbox (ConnSocket ℕ)
mailbox = record {
  connected = false;
  timeout_receive_ms = 0;
  max_num_bytes_rsp = 0;
  rsp_buf = λ i. 0;
  num_bytes_rsp = 0;
  sys = fresh;
}

server_connect-connects_example :
    (server_connect (with_connect (system (host 5 ∷ host 7 ∷ [])) idle) [] 24817 mailbox).0 ≡ true
server_connect-connects_example =
    server_connect-connects (system (host 5 ∷ host 7 ∷ [])) idle [] 24817 mailbox
      (host 5 ∷ host 7 ∷ []) refl (λ type. λ protocol. λ s. (4, refl))
      (inr (inl (refl, (λ d. λ s. refl))))
