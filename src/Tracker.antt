-- ===== src/Tracker.antt =====
-- tracker/bmc: the tracker that follows a BTP message over the networks by its BTPEvent logs.
pub mod Event
pub mod Links
pub mod Store
pub mod Summary
pub mod Finalize
