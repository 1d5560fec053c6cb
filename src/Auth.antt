-- ===== src/Auth.antt =====
-- apps/api/src/auth.
pub mod Tickets
