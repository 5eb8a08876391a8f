-- ===== src/Net/Examples.antt =====
-- Tests of the sockets and the mailbox, and the theorems at concrete inputs, over a system that
-- takes what is sent and delivers its bytes in order.
use tas_client_api.Prelude.{
  ℕ, zero, suc, ◌≤◌, ◌≡◌, refl, sym, ap, subst, ◌∙◌, none-ne, put_bytes, arith, true, false, some,
  List, [], ◌∷◌, ◌++◌, length, Mem, get_or, get_bytes, take, some-inj,
}
use tas_client_api.Rw.State.{Rw}
use tas_client_api.Net.Os.{Os, IsOs}
use tas_client_api.Net.Socket.{send, recv, send_all}
use tas_client_api.Net.Sending.{IsTransport, IsSent, send_all-IsSent}
use tas_client_api.Net.Mailbox.{
  Mailbox, socket_receive, take_size, receive_pl2_pkt, receive, execute, send_pkts, send_loop,
  socket_send,
}
use tas_client_api.Net.Received.{IsReceived, receive-IsReceived}
use tas_client_api.Net.Bounded.{IsBounded, execute-IsBounded}

abbrev drop : ℕ → List ℕ → List ℕ
drop zero xs = xs
drop (suc n) [] = []
drop (suc n) (x ∷ xs) = drop n xs

-- The bytes sent, and those that are to come.
abbrev Line : Type 0
Line = List ℕ × List ℕ

abbrev line : Os Line
line = record {
  connect = λ ip_addr. λ port_num. λ s. (true, s);
  close = λ s. s;
  select_write = λ ms. λ s. s;
  select_read = λ ms. λ s. (false, s);
  send = λ bs. λ s. (some (length bs), (s.0 ++ bs, s.1));
  recv = λ n. λ s. (some (take n s.1), (s.0, drop n s.1));
}

abbrev sent : Line → List ℕ
sent s = s.0

take-most : (n : ℕ) (xs : List ℕ) → length (take n xs) ≤ n
unfolding take
take-most zero xs = omega arith
take-most (suc n) [] = omega arith
take-most (suc n) (x ∷ xs) = omega (arith, take-most n xs)

take-length : (xs : List ℕ) → take (length xs) xs ≡ xs
unfolding take
take-length [] = refl
take-length (x ∷ xs) = ap (λ ys. x ∷ ys) (take-length xs)

line-IsOs : IsOs line
line-IsOs = record {
  recv_most = λ n. λ s. λ got. λ e. subst (λ xs. length xs ≤ n) (some-inj e) (take-most n s.1);
}

line-IsTransport : IsTransport line sent
line-IsTransport = record {
  waits = λ ms. λ s. refl;
  sends = λ bs. λ s. λ n. λ e. (
    omega (arith, some-inj e),
    ap (λ xs. s.0 ++ xs) (sym (take-length bs)) ∙ ap (λ k. s.0 ++ take k bs) (some-inj e),
  );
  progress = λ bs. λ s. λ n. λ e. λ pos. omega (arith, some-inj e);
  fails = λ bs. λ s. λ e. absurd (none-ne (sym e));
}

-- A packet of 8 bytes, of which the header is 0x0800_a200.
abbrev packet : List ℕ
packet = 8 ∷ 0 ∷ 0 ∷ 0 ∷ 0 ∷ 0xa2 ∷ 0 ∷ 8 ∷ []

abbrev zeros : Mem ℕ
zeros i = 0

abbrev request : Mem ℕ
request i = get_or (8 ∷ 0x0000_a200 ∷ 12 ∷ 0x0000_c001 ∷ 3 ∷ []) i 0

abbrev mailbox : Mailbox Line
mailbox = record {
  connected = true;
  timeout_receive_ms = 1000;
  max_num_bytes_rsp = 1024;
  rsp_buf = zeros;
  num_bytes_rsp = 0;
  sys = ([], packet);
}

-- The packet is received.
received : ((receive line zeros mailbox).ret ≡ true) × ((receive line zeros mailbox).num_bytes ≡ 8)
unfolding receive receive_pl2_pkt take_size socket_receive recv take put_bytes
received = (refl, refl)

-- Two packets are sent.
sent_two : (send_pkts line request 2 mailbox).1.sys.0 ≡ get_bytes request 0 20
unfolding send_pkts send_loop socket_send send get_bytes
sent_two = refl

send_all-IsSent_example :
    IsSent sent request 0 20 ([], []) (send_all line 21 request 0 20 (some 100) ([], []))
send_all-IsSent_example =
    send_all-IsSent line sent line-IsTransport request 0 20 (some 100) ([], [])

receive-IsReceived_example : IsReceived zeros mailbox (receive line zeros mailbox)
receive-IsReceived_example =
    receive-IsReceived line line-IsOs zeros mailbox (omega arith) (omega arith)

execute-IsBounded_example : IsBounded 1024 (execute line request zeros 1 mailbox)
execute-IsBounded_example = execute-IsBounded line request zeros 1 mailbox (omega arith)
