-- ===== src/Session.antt =====
-- internal/session: the logged-in browsers and the keys that each of them holds.
mod Types
mod Scratch
mod Manager
mod Endings
pub mod Index
pub mod Ended
pub mod Keyring
pub mod Moves
pub mod Rotation
pub mod Sound
pub mod Runs
pub mod Lifetimes
mod Examples
unfoldable pub use Types.*
unfoldable pub use Scratch.*
unfoldable pub use Manager.*
unfoldable pub use Endings.*
