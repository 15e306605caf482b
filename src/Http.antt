-- ===== src/Http.antt =====
-- internal/http: the handlers of the operations, with the middleware before them.
pub mod Errors
pub mod Endpoint
pub mod Tokens
pub mod Authorize
pub mod Users
pub mod Roles
pub mod Projects
pub mod Mfa
pub mod Cursors
pub mod Notifications
pub mod RateLimit
pub mod SystemEvents
pub mod Cookies
pub mod Guards
pub mod Middleware
pub mod Auth
