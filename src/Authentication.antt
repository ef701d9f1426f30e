-- ===== src/Authentication.antt =====
-- services/authentication, the codes of services/emailing/otp_service.py, and the account in
-- services/user_profile/user_profile.py.
pub mod Tokens
pub mod Codes
pub mod Issue
pub mod Accounts
pub mod Profile
pub mod Google
pub mod Quota
pub mod Rotation
pub mod Login
pub mod Failures
pub mod Lockout
mod Tests
pub mod Store
