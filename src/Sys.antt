-- ===== src/Sys.antt =====
-- The operating system as myrun sees it: calls and their answers, actions that make calls, and
-- what is held after the calls made.
mod Calls
mod Actions
mod Ledger
mod Keeping
mod Moving
mod Steps
mod Making
unfoldable pub use Calls.*
unfoldable pub use Actions.*
unfoldable pub use Ledger.*
pub use Keeping.*
pub use Moving.*
pub use Steps.*
pub use Making.*
