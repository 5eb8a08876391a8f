-- ===== src/Client/MailboxIf.antt =====
-- CTasPktMailboxIf (src/tas_client/tas_pkt_mailbox_if.h), with the `server_connect` of
-- CTasPktMailboxSocket. `M` is the state of the mailbox and of everything behind it.
use tas_client_api.Prelude.{ℕ, Bool, Mem, List}
use tas_client_api.Net.Os.{Os}
use tas_client_api.Net.Mailbox
use tas_client_api.Net.Mailbox.{Mailbox, Answer}

-- What `execute` and `receive` return and set, and the buffer that they leave.
pub record Reply (M : Type 0) : Type 0 where
  pub ret : Bool
  pub num_bytes : ℕ
  pub rsp : Mem ℕ
  pub mailbox : M

pub record MailboxIf (M : Type 0) : Type 0 where
  pub server_connect : List ℕ → ℕ → M → Bool × M
  pub config : ℕ → ℕ → M → M
  pub send : Mem ℕ → ℕ → M → Bool × M
  pub receive : Mem ℕ → M → Reply M
  pub execute : Mem ℕ → Mem ℕ → ℕ → M → Reply M

abbrev pub reply : {S : Type 0} → Answer S → Reply (Mailbox S)
reply a = record {
  ret = a.ret;
  num_bytes = a.num_bytes;
  rsp = a.mailbox.rsp_buf;
  mailbox = a.mailbox;
}

-- CTasPktMailboxSocket
abbrev pub socket_mailbox : {S : Type 0} → Os S → MailboxIf (Mailbox S)
socket_mailbox os = record {
  server_connect = Mailbox.server_connect os;
  config = Mailbox.config;
  send = Mailbox.send_pkts os;
  receive = λ rsp. λ m. reply (Mailbox.receive os rsp m);
  execute = λ rq. λ rsp. λ n. λ m. reply (Mailbox.execute os rq rsp n m);
}
