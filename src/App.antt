-- ===== src/App.antt =====
-- apps/api/src/app: what stands between the domain and the transport.
pub mod Wire
