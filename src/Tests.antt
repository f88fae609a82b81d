-- ===== src/Tests.antt =====
-- The theorems at concrete inputs.
mod Links
mod Monitor
mod Verdict
mod Calls
mod Rollbacks
mod Methods
mod Events
mod MergedCalls
mod MergedEvents
mod Structs
mod Signing
mod Converting
mod Finalizing
mod Tracking
mod Services
