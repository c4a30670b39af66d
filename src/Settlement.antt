-- ===== src/Settlement.antt =====
-- The settlement window scheduler of the keeper: keeper/src/run/settlement.ts, the state of
-- keeper/src/run/types.ts, and the two steps of keeper/src/run/daemon.ts that close and open a window.
pub mod Types
pub mod Window
pub mod Cycle
pub mod Progress
pub mod Round
pub mod Catchup
pub mod Batches
pub mod Rounds
mod Tests
