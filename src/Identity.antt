-- ===== src/Identity.antt =====
-- The identity service (apps/identity).
pub mod Model
pub mod Security
pub mod Users
pub mod Sessions
pub mod RefreshTokens
pub mod Audit
pub mod Redis
pub mod Service
pub mod Account
pub mod Families
pub mod Calls
pub mod Kept
pub mod Tokens
pub mod Rotation
pub mod Reuse
pub mod Limits
pub mod Distinct
pub mod Ends
pub mod Codes
pub mod Attempts
pub mod Guesses
pub mod Controller
mod Tests
