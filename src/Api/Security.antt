-- ===== src/Api/Security.antt =====
-- The defensive controls of api/security.py.
pub mod Window
pub mod Daily
pub mod Params
pub mod Middleware
