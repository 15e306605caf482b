-- ===== src/Tests/SignIn.antt =====
-- Signing in on concrete inputs.
use Prim.Native.String.{len}
use wow_dashboard_api.Prelude.{
  ℕ, ◌+◌, ◌≤◌, ◌<◌, ◌≡◌, refl, arith, String, Bool, true, false, some, none, Option, List, [], ◌∷◌,
  find_where, update_where, length,
}
use wow_dashboard_api.Store.Schema.{User}
use wow_dashboard_api.Store.Effect.{World, Action, ok, err, invalid_credentials}
use wow_dashboard_api.Auth.Users.{has_id, is_after, count_failure}
use wow_dashboard_api.Auth.Service.{Session, Claims, is_disabled, max_password_length}
use wow_dashboard_api.Auth.Sessions.{session_of}
use wow_dashboard_api.Auth.SignIn.{SignInInput, sign_in}
use wow_dashboard_api.Auth.SignIn.Steps.{account}
use wow_dashboard_api.Auth.SignIn.Safety.{sign_in-ok, IsChecked}
use wow_dashboard_api.Auth.SignIn.Lockout.{after_failures, after_failures_lock, sign_in_locked}
use wow_dashboard_api.Auth.MfaSignIn.{complete_mfa_sign_in}
use wow_dashboard_api.Auth.MfaSignIn.Safety.{complete_mfa_sign_in-ok}
use wow_dashboard_api.Tests.{service, env, ada, world}

abbrev pub input : SignInInput
input = record { email = " Ada@example.com"; password = "correct horse" }

abbrev wrong_input : SignInInput
wrong_input = record input { password = "wrong" }

unfoldable pub session : Session
unfolding sign_in
session = elim (sign_in service input env world).0 [
  | ok s ↦ s
  | err e ↦ session_of (wow_dashboard_api.Auth.Service.public_user_from_domain env ada) "" ""
]

abbrev pub signed_in : World
signed_in = (sign_in service input env world).1

sign_in-signed_in : sign_in service input env world ≡ (ok session, signed_in)
unfolding sign_in session wow_dashboard_api.Prelude.Text.to_lower
    wow_dashboard_api.Prelude.Text.trim_space
sign_in-signed_in = refl

sign_in-ok_example :
    (u : User) × (account world input ≡ some u)
    × (len input.password ≤ max_password_length)
    × (is_after u.locked_until 100 ≡ false)
    × (service.password.verify input.password u.password_hash ≡ some true)
    × IsChecked service u world signed_in session
sign_in-ok_example = sign_in-ok service input env world signed_in session sign_in-signed_in

abbrev locked_world : World
locked_world = record world {
  db = record world.db { users = record ada { locked_until = some 400 } ∷ [] };
}

sign_in_locked_example :
    ((sign_in service input env locked_world).0 ≡ err invalid_credentials)
    × ((sign_in service input env locked_world).1.db.users ≡ locked_world.db.users)
    × ((sign_in service input env locked_world).1.db.refresh_tokens
        ≡ locked_world.db.refresh_tokens)
unfolding wow_dashboard_api.Prelude.Text.to_lower wow_dashboard_api.Prelude.Text.trim_space
sign_in_locked_example =
    sign_in_locked service input env locked_world (record ada { locked_until = some 400 }) 400 refl
      refl (omega arith) refl

after_failures_lock_example :
    ((after_failures 3 ((50, 10) ∷ (60, 20) ∷ []) ada).locked_until ≡ none)
    × ((count_failure 3 70 30 (after_failures 3 ((50, 10) ∷ (60, 20) ∷ []) ada)).locked_until
        ≡ some 70)
    × ((count_failure 3 70 30 (after_failures 3 ((50, 10) ∷ (60, 20) ∷ []) ada)).failed_login_count
        ≡ 0)
after_failures_lock_example = after_failures_lock 3 ((50, 10) ∷ (60, 20) ∷ []) 70 30 ada refl

mfa_session : Session
unfolding complete_mfa_sign_in
mfa_session = elim (complete_mfa_sign_in service "ticket" "123456" env world).0 [
  | ok s ↦ s
  | err e ↦ session_of (wow_dashboard_api.Auth.Service.public_user_from_domain env ada) "" ""
]

abbrev verified : World
verified = (complete_mfa_sign_in service "ticket" "123456" env world).1

complete_mfa_sign_in-verified :
    complete_mfa_sign_in service "ticket" "123456" env world ≡ (ok mfa_session, verified)
unfolding complete_mfa_sign_in mfa_session wow_dashboard_api.Prelude.Text.trim_space
    wow_dashboard_api.Prelude.Sorting.order_by
complete_mfa_sign_in-verified = refl

complete_mfa_sign_in-ok_example :
    (verify : ℕ → String → Action Bool) × (claims : Claims) × (u : User) × (service.mfa_verifier
      ≡ some verify)
    × (service.token_manager.verify_mfa_pending_token "ticket" 0 ≡ some claims)
    × (env.parse_uuid claims.subject ≡ some u.id)
    × (find_where (has_id u.id) world.db.users ≡ some u)
    × (is_disabled u ≡ false)
    × (is_after u.locked_until 101 ≡ false)
    × (u.mfa_enabled ≡ true)
    × ((verify u.id "123456" env (record world { calls = 3 })).0 ≡ ok true)
complete_mfa_sign_in-ok_example =
    complete_mfa_sign_in-ok service "ticket" "123456" env world verified mfa_session
      complete_mfa_sign_in-verified
