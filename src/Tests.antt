-- ===== src/Tests.antt =====
-- Concrete runs of the modelled functions, and the theorems at concrete inputs.
mod Messages
mod Programs
mod Commands
mod Summaries
mod System
mod Vote
mod Bodies
mod Signing
mod Offchain
mod Values
mod Swap
