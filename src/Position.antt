-- ===== src/Position.antt =====
-- position.py: the book of positions and the split of a close into today and yesterday.
pub mod Book
pub mod Effects
pub mod Closing
pub mod Plan
pub mod Planning
pub mod Rolling
pub mod Ledger
