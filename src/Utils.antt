-- ===== src/Utils.antt =====
-- The functions of src/tas_client/tas_utils.h and src/tas_client/tas_utils.cpp that the packet
-- handlers use.
pub mod Hash
pub mod HashText
pub mod Frequ
pub mod Sampled
pub mod Measured
mod Examples
