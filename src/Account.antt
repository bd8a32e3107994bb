-- ===== src/Account.antt =====
-- The accounts of services/user-service.
pub mod Codes
pub mod Logins
pub mod Recovery
