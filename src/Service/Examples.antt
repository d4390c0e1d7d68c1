-- ===== src/Service/Examples.antt =====
-- Concrete runs of the code of crates/service to which the theorems apply.
mod OfMessages
mod OfRegistry
mod OfDevices
mod OfListener
mod OfStatus
mod OfScan
mod OfVidPid
mod OfEvent
mod OfOneshot
mod OfText
mod OfClose
mod OfWindow
