-- ===== src/Auth.antt =====
-- app/features/auth and app/core/security/token.py: tokens, sessions and the account service.
pub mod World
pub mod Token
pub mod Sessions
pub mod Service
pub mod History
pub mod Spent
pub mod SingleUse
pub mod Spending
pub mod Rotation
pub mod Revocation
pub mod Current
mod Tests
