-- ===== src/Macros.antt =====
-- The crate service-macros (crates/service-macros): the code that its procedural macros generate.
mod Examples
pub mod Syntax
pub mod Dispatcher
pub mod Meta
pub mod Service
