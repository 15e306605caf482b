-- ===== src/Auth/SignIn/Steps.antt =====
-- The steps of a sign-in, each from the next: internal/auth/service/service.go.

use Prim.Native.String.{len}
use wow_dashboard_api.Prelude.{
  ℕ, ◌+◌, ◌≤◌, ◌<◌, ◌≡◌, String, false, some, Option, List, arith, find_where, update_where,
}
use wow_dashboard_api.Store.Schema.{User}
use wow_dashboard_api.Store.Effect.{called, Error, Env, World, ok, err, invalid_credentials}
use wow_dashboard_api.Auth.Users.{count_failure, has_id, has_email, locked_now, is_after}
use wow_dashboard_api.Auth.Service.{Service, max_password_length}
use wow_dashboard_api.Auth.Audit.{record_audit-eq, audited}
use wow_dashboard_api.Auth.SignIn.{
  SignInInput, sign_in, count_login_failure, failure_reason, sign_in_found, normalize_email,
  failure_event, refuse,
}

pub refuse-eq :
    (s : Service) (email user_id reason : String) (e : Error) (env : Env) (w : World)
    → refuse s email user_id reason e env w
      ≡ (err e, audited s.audit_recorder (failure_event email user_id reason) env w)
unfolding refuse
refuse-eq s email user_id reason e env w =
    grind (arith, record_audit-eq s.audit_recorder (failure_event email user_id reason) env w)

-- The account that a sign-in is for.
abbrev pub account : World → SignInInput → Option User
account w input = find_where (has_email (normalize_email input.email)) w.db.users

-- How a sign-in with a password of a bounded length goes on.
pub sign_in-settles :
    (s : Service) (input : SignInInput) (env : Env) (w : World) (u : User)
    → account w input ≡ some u
    → env.fails (w.calls + 1) ≡ false
    → len input.password ≤ max_password_length
    → sign_in s input env w
      ≡ sign_in_found s
          (normalize_email input.email)
          input.password
          u
          (env.clock w.calls)
          env
          (record w { calls = w.calls + 2 })
unfolding sign_in
sign_in-settles s input env w u found f short = ground arith

-- A password that is too long is refused before the account is read.
pub sign_in-too_long :
    (s : Service) (input : SignInInput) (env : Env) (w : World)
    → max_password_length < len input.password
    → sign_in s input env w
      ≡ refuse s
          (normalize_email input.email)
          ""
          "invalid_credentials"
          invalid_credentials
          env
          (called w)
unfolding sign_in
sign_in-too_long s input env w long = ground arith

abbrev pub with_failure : Service → ℕ → ℕ → List User → List User
with_failure s user at users =
    update_where (has_id user)
      (count_failure s.max_failed_login_attempts (at + s.account_lockout_window) at) users

-- A failure that is counted, where the statement does not fail.
pub count_login_failure-eq :
    (s : Service) (user at : ℕ) (env : Env) (w : World)
    → env.fails w.calls ≡ false
    → count_login_failure s user at env w ≡ (
      ok (
          failure_reason
            (locked_now at (find_where (has_id user) (with_failure s user at w.db.users)))),
      record w {
        calls = w.calls + 1;
        db = record w.db { users = with_failure s user at w.db.users };
      },
    )
unfolding count_login_failure
count_login_failure-eq s user at env w f = ground arith

pub sign_in_found-locked :
    (s : Service) (email password : String) (u : User) (at until : ℕ) (env : Env) (w : World)
    → u.locked_until ≡ some until
    → at < until
    → sign_in_found s email password u at env w
      ≡ refuse s email (env.uuid_string u.id) "account_locked" invalid_credentials env w
unfolding sign_in_found
sign_in_found-locked s email password u at until env w locked before = ground arith

-- A wrong password, where the statement that counts it does not fail.
pub sign_in_found-wrong :
    (s : Service) (email password : String) (u : User) (at : ℕ) (env : Env) (w : World)
    → is_after u.locked_until at ≡ false
    → s.password.verify password u.password_hash ≡ some false
    → env.fails w.calls ≡ false
    → let w' = record w {
      calls = w.calls + 1;
      db = record w.db { users = with_failure s u.id at w.db.users };
    } in
      sign_in_found s email password u at env w
      ≡ refuse s email
          (env.uuid_string u.id)
          (failure_reason
            (locked_now at (find_where (has_id u.id) (with_failure s u.id at w.db.users))))
          invalid_credentials
          env
          w'
unfolding sign_in_found
sign_in_found-wrong s email password u at env w free wrong f =
    let counted = count_login_failure-eq s u.id at env w f in grind arith
