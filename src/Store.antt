-- ===== src/Store.antt =====
-- internal/store: the accounts, invitations, settings and audit log, sealed in one file.
mod Types
mod Validate
mod Volume
mod Base
mod Users
mod Accounts
mod Invites
mod Confirm
mod Deposits
mod Preferences
pub mod Service
pub mod Replacement
pub mod Commit
pub mod Effects
pub mod Invariants
pub mod Access
mod Examples
unfoldable pub use Types.*
unfoldable pub use Validate.*
unfoldable pub use Volume.*
unfoldable pub use Base.*
unfoldable pub use Users.*
unfoldable pub use Accounts.*
unfoldable pub use Invites.*
unfoldable pub use Confirm.*
unfoldable pub use Deposits.*
unfoldable pub use Preferences.*
