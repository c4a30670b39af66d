-- ===== src/Agent/Cursor.antt =====
-- The durable checkpoint of agents/sdk/src/agent/eventCursor.ts. A `Set` is the list of its values in the
-- order of insertion. What the chain answers is an argument; a block number in the file is read as a number.
mod State
pub mod Keys
pub mod Window
pub mod Restart
pub mod Chain
mod Tests
unfoldable pub use State.*
