-- ===== src/Store/Effects.antt =====
-- internal/store: what one change may do to the accounts and to the audit log. Each change of the
-- store is shown to have such an effect, and the invariants are shown for effects.
mod Steps
mod Accounts
pub mod Credentials
pub mod Creations
mod Confirmations
mod Settings
mod Methods
pub mod Requests
pub use Steps.*
