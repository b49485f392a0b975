-- ===== src/Auth.antt =====
-- Who may call: app/platform/auth_context.py, the settings of app/config.py that it reads, and the
-- guards of app/dependencies.py.
pub mod Settings
pub mod Claims
pub mod Context
pub mod Guards
pub mod Permissions
pub mod Values
pub mod Holders
pub mod Tokens
