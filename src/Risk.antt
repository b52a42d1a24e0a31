-- ===== src/Risk.antt =====
-- risk.py: the limits that an order passes before it is sent.
pub mod Limiter
pub mod Rates
pub mod Config
pub mod Manager
pub mod Watermark
pub mod Drawdown
pub mod Sizing
pub mod Batch
pub mod Volumes
pub mod Opening
pub mod Sessions
pub mod Entry
pub mod Legs
