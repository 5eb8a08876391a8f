-- ===== src/Client.antt =====
-- The clients (src/tas_client/tas_client_server_con.cpp, tas_client_chl.cpp and
-- tas_client_rw_base.cpp).
pub mod MailboxIf
pub mod Con
pub mod Lists
pub mod Listing
pub mod Session
pub mod Chl
pub mod Channel
pub mod Messages
pub mod Spec
pub mod Keeps
pub mod Calls
pub mod Subscribing
pub mod Refine
pub mod TestData
mod Examples
pub mod Fill
pub mod Filled
pub mod Filling
pub mod Rw
pub mod Access
pub mod Resets
pub mod Reported
mod RwExamples
