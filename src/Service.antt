-- ===== src/Service.antt =====
-- The crate msft-service (crates/service).
mod Examples
pub mod Device
pub mod Event
pub mod Guid
pub mod Hkey
pub mod Listener
pub mod Message
pub mod Scan
pub mod Status
pub mod Ports
pub mod Power
pub mod Text
pub mod VidPid
pub mod Wait
pub mod Wchar
pub mod Window
