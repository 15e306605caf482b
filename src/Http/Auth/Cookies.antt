-- ===== src/Http/Auth/Cookies.antt =====
-- The cookies that a sign-in sets: sessionResponse of internal/http/handlers/auth.go after SignIn.
