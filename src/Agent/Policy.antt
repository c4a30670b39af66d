-- ===== src/Agent/Policy.antt =====
-- The planner of agents/sdk/src/agent/policy.ts.
pub mod Types
pub mod Maintenance
pub mod Plan
pub mod Authorised
pub mod Sections
pub mod Delegated
pub mod Authority
pub mod Value
pub mod Spending
pub mod Budget
mod Tests
