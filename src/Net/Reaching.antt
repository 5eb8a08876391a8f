-- ===== src/Net/Reaching.antt =====
-- The connecting of a mailbox (src/tas_client/tas_pkt_mailbox_socket.cpp) over the name resolution and
-- the connecting of a socket (src/tas_socket/tas_conn_socket.cpp).
use tas_client_api.Prelude.{ℕ, ◌≡◌, true, none, some, List, Some}
use tas_client_api.Net.Os.{Os}
use tas_client_api.Net.Resolver.{AddrInfo, Calls, ConnSocket, new_tcp_socket, close, connect}
use tas_client_api.Net.Accepting.{IsOpening, IsAccepting, connect-connects}
use tas_client_api.Net.Mailbox.{Mailbox, server_connect}

module _ {S : Type 0} (calls : Calls S) (os : Os (ConnSocket S)) where
  -- The socket of a mailbox: `connect` of a new one, without a time, and `close`.
  abbrev pub with_connect : Os (ConnSocket S)
  with_connect = record os {
    connect =
        λ hostname. λ port. λ k. connect calls hostname port none (new_tcp_socket calls k.sys);
    close = close calls;
  }

  -- If the name of the server is resolved, the system gives descriptors, and one of the addresses is
  -- one of IPv4 that accepts connections, then server_connect of a mailbox returns true, whatever the
  -- other addresses do.
  pub server_connect-connects :
      (ip_addr : List ℕ) (port_num : ℕ) (m : Mailbox (ConnSocket S)) (res : List AddrInfo)
      → (calls.getaddrinfo ip_addr (new_tcp_socket calls m.sys.sys).sys).0 ≡ some res
      → IsOpening calls
      → Some (IsAccepting calls port_num) res
      → (server_connect with_connect ip_addr port_num m).0 ≡ true
  unfolding server_connect
  server_connect-connects ip_addr port_num m res e opening h =
      connect-connects calls ip_addr port_num (new_tcp_socket calls m.sys.sys) res e opening h
