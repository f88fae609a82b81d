-- ===== src/Service.antt =====
-- service: the specification of a service, merged from the contract specifications of its networks,
-- and the services that send calls to the networks' handlers.
pub mod Method
pub mod Event
pub mod Struct
pub mod Merged
pub mod Signer
pub mod Default
pub mod Whole
