-- ===== src/Runtime.antt =====
-- The crate msft-runtime (crates/runtime).
mod Examples
pub mod Callbacks
pub mod Dropped
pub mod Environment
pub mod Event
pub mod FileTime
pub mod Handles
pub mod Lines
pub mod Timer
pub mod Usb
pub mod Wait
pub mod Watch
pub mod Work
