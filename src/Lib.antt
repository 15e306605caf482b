-- ===== src/Lib.antt =====
-- A model of wow-dashboard-api: a dashboard's HTTP API in Go over PostgreSQL.
--
-- The services of internal/auth, internal/projects, internal/mfa, internal/roles and internal/users
-- run requests. Each reads the request's context, calls the stores of internal/store, which run the
-- statements of internal/store/sql, and hands tokens, mails and alerts to other packages. The model
-- keeps that shape:
--
-- - Store/Schema.antt: the rows of internal/store/query/models.go, the database as one record of
--   lists. An identifier is a number, 0 for uuid.Nil; a time is a number of microseconds.
-- - Store/Effect.antt: a request is an action on the world: it may fail at each call, as the
--   environment decides, and its errors are the sentinels that errors.Is tells apart. A statement
--   runs whole or fails and does nothing. `transaction` is UnitOfWork.Do of
--   internal/store/authrepo/unit_of_work.go.
-- - Auth/RefreshTokens.antt, Auth/AuthTokens.antt, Auth/Users.antt: the stores, one function for
--   each method: RotateRefreshToken is rotate_refresh_token, and so on.
-- - Auth/Audit.antt: the audit events, internal/auth/service/audit.go and authrepo/audit.go.
-- - Auth/Service.antt: the service's dependencies and constants.
-- - Auth/Sessions.antt, Auth/SignIn.antt, Auth/MfaSignIn.antt, Auth/Passwords.antt: the operations
--   of internal/auth/service/service.go, and below each the modules with its theorems.
-- - Auth/SignUp.antt, Auth/Emails.antt: registration, and the verification of addresses.
-- - Auth/Profile.antt: UpdateMyProfile.
-- - Auth/Tokens.antt: internal/auth/token over the library of JWTs. The services take it by the
--   operations of the token manager, which are parameters there.
-- - Auth/Impersonation.antt: CurrentUser, Impersonate, RefreshSession and StopImpersonation.
-- - Rbac.antt: the catalog of permissions, internal/auth/rbac/rbac.go.
-- - Projects/Repository.antt, Projects/Audit.antt, Projects/Operations.antt, Projects/Members.antt:
--   the projects and their members, internal/projects and internal/store/projectsrepo. Every
--   mutation ends in `commit`: its write, event and notice in one transaction, or step by step.
-- - Store/Mutation.antt: the way of the services to end a mutation, `commit`: the write, its event
--   and its notice in one transaction where a unit of work is set up, and step by step otherwise.
-- - Mfa/Store.antt and Mfa/Service.antt: the second factors, internal/mfa/service/service.go and
--   internal/store/authrepo/mfa.go; Mfa/Codes.antt and Mfa/Enrollment.antt hold the theorems.
-- - Roles/Store.antt and Roles/Service.antt: the roles, internal/roles and internal/store/rolesrepo;
--   theorems in Roles/Permissions.antt and Roles/Guards.antt.
-- - Users/Store.antt and Users/Service.antt: the management of accounts, internal/users and
--   internal/store/usersrepo; theorems in Users/Guards.antt.
-- - Lists.antt: the lists by pages, with internal/http/pagination. An int has 64 bits, an offset in
--   the database 32.
-- - Notifications.antt: internal/notifications and internal/store/notificationsrepo; below it, reading
--   page by page. Lists/Keyset.antt: the rows of a page, and what stands past its last row.
-- - SystemEvents.antt: the lists of audit events, internal/systemevents and
--   internal/store/systemeventsrepo.
-- - Http/Endpoint.antt: a handler is an action that ends with a reply or an error for the client;
--   Http/Errors.antt: those errors, internal/http/apierror and the functions that map errors to them.
-- - Http/Tokens.antt, Http/Authorize.antt, Http/Cookies.antt: bearer tokens and cookies, and the
--   guards of the handlers of internal/http/handlers.
-- - Http/Auth.antt, Http/Auth/Account.antt, Http/Users.antt, Http/Roles.antt, Http/Projects.antt,
--   Http/Mfa.antt, Http/Notifications.antt, Http/SystemEvents.antt: the handlers; each starts from
--   its request's fields, as the framework has read them, and calls the services. Http/Guards.antt and below: what the guards establish.
-- - Http/Cursors.antt: the cursors of lists as texts, internal/http/handlers/system_events.go.
-- - Http/Middleware.antt: internal/http/middleware/cookieauth.go. Http/RateLimit.antt: ratelimit.go
--   there, with its clients as a function from keys; a bucket of golang.org/x/time is a parameter.
-- - Tests.antt: concrete inputs, and below it runs on them.
-- - Prelude.antt: tests, tables, texts and sorting that the rest shares.
--
-- What other packages implement is a parameter: the token manager, the password hasher, uuid.Parse,
-- mail.ParseAddress, http.ParseCookie, SHA-256, the TOTP library, the cipher of the MFA secrets,
-- base64, JWTs, the formats of times, the clock and the random source. No theorem assumes more of
-- them than its hypotheses say. Texts are taken as ASCII, so that bytes and characters agree, but
-- for the fields of profiles, whose bytes are counted. A store that may be nil is a flag of the
-- service, and the repository's unit of work gives every store. Statements of one request are not
-- interleaved with those of another. Every function terminates by its structure; only the client
-- that follows cursors has a fuel, the number of its requests, and one more than there are rows is
-- enough. Durations of work (so the dummy hash of a sign-in), logging and tracing are not modelled,
-- nor are the router and the validation of requests by their schemas, the limits of sizes and those
-- kept in Redis, the configuration, the background jobs, and the retention of audit events.
pub mod Prelude
pub mod Store
pub mod Rbac
pub mod Auth
pub mod Mfa
pub mod Projects
pub mod Roles
pub mod Users
pub mod Lists
pub mod Notifications
pub mod SystemEvents
pub mod Http
pub mod Tests
