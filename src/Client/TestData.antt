-- ===== src/Client/TestData.antt =====
-- Data for the tests of the clients: a mailbox that answers every request with the same packet, and
-- new clients.
use tas_client_api.Prelude.{ℕ, true, false, List, [], ◌∷◌, Mem, get_or}
use tas_client_api.ErrorInfo.{no_error}
use tas_client_api.Chl.Handler as Channels
use tas_client_api.Chl.Handler.{Chl}
use tas_client_api.ServerCon.Handler
use tas_client_api.ServerCon.Handler.{ServerCon}
use tas_client_api.Client.MailboxIf.{MailboxIf}
use tas_client_api.Client.Con.{Con}

abbrev pub zeros : Mem ℕ
zeros i = 0

abbrev pub words : List ℕ → Mem ℕ
words xs i = get_or xs i 0

-- The mailbox has no state, and the network neither.
abbrev pub answering : Mem ℕ → MailboxIf Unit
answering pkt = record {
  server_connect = λ ip_addr. λ port_num. λ m. (true, m);
  config = λ timeout. λ max. λ m. m;
  send = λ rq. λ n. λ m. (true, m);
  receive = λ rsp. λ m. record { ret = true; num_bytes = pkt 0; rsp = pkt; mailbox = m };
  execute = λ rq. λ rsp. λ n. λ m. record { ret = true; num_bytes = pkt 0; rsp = pkt; mailbox = m };
}

abbrev pub con : Con Unit
con = record {
  ei = no_error;
  tphsc = Handler.construct no_error zeros 0 zeros 0 zeros 0;
  mailbox = tt;
  client_name = 97 ∷ [];
  user_name = 98 ∷ [];
  client_pid = 7;
  server_ip_addr = [];
  server_port_num = 0;
  has_server_info = false;
  server_challenge = 0;
  session_started = true;
  rcv_chl_active = false;
  device_reset_count = 0;
}

abbrev pub chl : Chl
chl = Channels.construct no_error zeros
