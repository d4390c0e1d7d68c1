-- ===== src/Runtime/Examples.antt =====
-- Concrete runs of the code of crates/runtime to which the theorems apply.
mod OfDropped
mod OfEvent
mod OfLines
mod OfWatch
mod OfWait
mod OfTimer
mod OfWork
mod OfUsb
