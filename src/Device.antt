-- ===== src/Device.antt =====
-- src/tas_client/tas_device_family.h and tas_utils_ifx.cpp: the families and the names of devices; and
-- their connections, of tas_utils.h and tas_utils.cpp.
pub mod Types
pub mod Family
pub mod Cases
pub mod Classified
pub mod Named
pub mod Connection
mod Examples
