-- ===== src/Sim.antt =====
-- broker/sim.py: the simulated broker that keeps no state file (`state_path is None`).
pub mod State
pub mod Matching
pub mod Depths
pub mod Days
pub mod Session
pub mod Fills
pub mod Prices
pub mod Lifecycle
pub mod Invariant
pub mod Accounts
pub mod Reconciled
pub mod Runs
pub mod Calls
pub mod Queries
