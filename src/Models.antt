-- ===== src/Models.antt =====
-- models.py: the data that strategy, risk, simulator and adapters exchange, with its validation.
mod Enums
mod Orders
mod Positions
mod Accounts
mod Quotes
mod Pairs
unfoldable pub use Enums.*
unfoldable pub use Orders.*
unfoldable pub use Positions.*
unfoldable pub use Accounts.*
unfoldable pub use Quotes.*
unfoldable pub use Pairs.*
