-- ===== src/Agent.antt =====
-- The agent of agents/sdk/src/agent: its actions, the security policy that it checks before it executes
-- one, the delegation that an action needs, the planner that proposes actions,
-- the cursor over the events and the semaphore.
pub mod Actions
pub mod Bigints
pub mod Addresses
pub mod Permissions
pub mod Requirements
pub mod Security
pub mod Policy
pub mod Cursor
pub mod Throttle
