-- ===== src/Auth.antt =====
-- internal/auth and internal/store/authrepo: accounts, sessions and the one-time tokens.
pub mod RefreshTokens
pub mod Audit
pub mod Service
pub mod Users
pub mod AuthTokens
pub mod Passwords
pub mod Impersonation
pub mod Emails
pub mod SignUp
pub mod Tokens
pub mod Sessions
pub mod SignIn
pub mod MfaSignIn
pub mod Profile
