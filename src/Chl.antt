-- ===== src/Chl.antt =====
-- CTasPktHandlerChl (src/tas_client/tas_pkt_handler_chl.cpp): the packets of channels.
pub mod Handler
pub mod Message
pub mod Subscription
mod Examples
