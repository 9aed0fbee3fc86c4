-- ===== src/Crypto.antt =====
-- internal/crypto: the key schedule, the authenticated encryption around it, and the key deposit.
mod Interface
mod Keys
mod Recovery
pub mod Laws
pub mod Deposit
pub mod Examples
pub use Interface.*
unfoldable pub use Keys.*
unfoldable pub use Recovery.*
