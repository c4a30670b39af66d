-- ===== src/Subgraph.antt =====
-- The mappings of the subgraph (subgraph/src): the entity store, its helpers, and the handlers of the
-- lock contract, the market router, MineCore and the delegation hub.
pub mod Table
pub mod Ve
pub mod Schema
pub mod Users
pub mod SortKey
pub mod Delegation
pub mod Locks
pub mod Market
pub mod Mine
mod Tests
