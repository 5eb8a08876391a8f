-- ===== src/Trc.antt =====
-- CTasPktHandlerTrc (src/tas_client/tas_pkt_handler_trc.cpp): the packets of continuous trace.
pub mod Handler
pub mod Subscription
pub mod Tracing
mod Examples
