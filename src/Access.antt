-- ===== src/Access.antt =====
-- Access control: src/orgscan/security_context.py, src/orgscan/auth.py,
-- src/orgscan/services/auth_service.py and src/orgscan/api/authentication.py.
pub mod Context
pub mod Storage
pub mod Sessions
pub mod Tokens
pub mod Login
pub mod System
pub mod Middleware
pub mod Visibility
