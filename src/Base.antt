-- ===== src/Base.antt =====
-- CTasPktHandlerBase (src/tas_client/tas_pkt_handler_base.cpp).
pub mod Errors
pub mod Ping
pub mod Accepted
