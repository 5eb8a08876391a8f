-- ===== src/Jtag.antt =====
-- tasutil_jtag_scan (src/tas_client/tas_utils_jtag.cpp): scans of JTAG chains by the client for
-- reading and writing.
pub mod Scan
pub mod Plan
pub mod Shifting
pub mod Building
pub mod Planned
mod Examples
