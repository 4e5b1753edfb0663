-- ===== src/Cu/Attach.antt =====
-- What single procedures do: which F1 Setup Requests are accepted, which uplink messages pass the
-- checks, how a UE is admitted and registered, and where downlink messages go.
pub mod Setup
pub mod Uplink
pub mod Register
pub mod Cell
pub mod Accept
pub mod Complete
pub mod Single
