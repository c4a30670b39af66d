-- ===== src/Agent/Security.antt =====
-- The execution policy of agents/sdk/src/agent/actionSecurity.ts: the checks that an action passes before
-- any call is made for it.
pub mod Types
pub mod Shape
pub mod Check
pub mod Sound
pub mod Inputs
pub mod Kinds
pub mod KingBucket
mod Tests
