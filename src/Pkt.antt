-- ===== src/Pkt.antt =====
-- src/tas_client/tas_pkt.h: the constants of the packet protocol.
pub mod Err
pub mod Cmd
pub mod Size
pub mod AddrMap
