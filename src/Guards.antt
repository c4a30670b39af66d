-- ===== src/Guards.antt =====
-- The guards of the keeper under keeper/src/shared: the circuit breaker, the choice of the scheduling tier and
-- the audit of the keeper's balance.
pub mod Breaker
pub mod Payout
pub mod Tier
