-- ===== src/Net.antt =====
-- src/tas_socket/tas_conn_socket.cpp and src/tas_client/tas_pkt_mailbox_socket.cpp: the way of the
-- packets over a connected socket.
pub mod Os
pub mod Socket
pub mod Mailbox
pub mod Established
pub mod Connecting
pub mod Accepting
pub mod Reaching
mod ConnectExamples
mod Receipt
pub mod Received
pub mod Bounded
pub mod Sending
pub mod Request
pub mod Whole
pub mod Resolver
mod Examples
