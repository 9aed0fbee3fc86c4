-- ===== src/Store/Invariants.antt =====
-- internal/store: what stays true of the state under every request.
pub mod Admins
pub mod Logins
pub mod Log
