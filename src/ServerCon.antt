-- ===== src/ServerCon.antt =====
-- CTasPktHandlerServerCon (src/tas_client/tas_pkt_handler_server_con.cpp): the packets of a
-- connection to a server and of a session.
pub mod Handler
pub mod Connecting
pub mod Targets
pub mod Clients
pub mod Device
pub mod Listed
pub mod Attached
pub mod Connected
pub mod Requests
mod Examples
