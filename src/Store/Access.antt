-- ===== src/Store/Access.antt =====
-- internal/store: who can log in after a change of an account, and with which data key.
mod Credentials
pub mod Passwords
pub mod Arrivals
pub mod Registration
