-- ===== src/Tests/Passwords.antt =====
-- Changing and resetting a password on concrete inputs.
use Prim.Native.String.{len}
use wow_dashboard_api.Prelude.{
  ℕ, ◌+◌, ◌≤◌, ◌≡◌, ◌≢◌, refl, arith, String, Bool, true, false, some, none, ◌==◌, ◌&&◌,
  count_where,
}
use wow_dashboard_api.Store.Schema.{User, AuthToken}
use wow_dashboard_api.Store.Effect.{World, Env, ok, err, invalid_credentials, invalid_token, called}
use wow_dashboard_api.Auth.RefreshTokens.{is_live}
use wow_dashboard_api.Auth.Service.{is_disabled, min_password_length, max_password_length}
use wow_dashboard_api.Auth.Passwords.{change_password, reset_password}
use wow_dashboard_api.Auth.Passwords.Change.{
  change_password-ok, change_password-err, NamedAccount, IsReplaced,
}
use wow_dashboard_api.Auth.Passwords.Reset.{
  reset_password-ok, reset_password-err, reset_password_twice, usable, spent,
}
use wow_dashboard_api.Tests.{service, env, world}

abbrev changed : World
changed = (change_password service "access" "correct horse" "new password" env world).1

change_password-changed :
    change_password service "access" "correct horse" "new password" env world ≡ (ok tt, changed)
unfolding change_password
change_password-changed = refl

change_password-ok_example :
    (user : ℕ) × (u : User) × (hash : String) × NamedAccount service env world "access" user u
    × (is_disabled u ≡ false)
    × (service.password.verify "correct horse" u.password_hash ≡ some true)
    × (min_password_length ≤ len "new password")
    × (len "new password" ≤ max_password_length)
    × (service.password.hash "new password" 2 ≡ some hash)
    × IsReplaced user hash 103 world changed
    × (count_where (λ t. t.user_id == user && is_live t) changed.db.refresh_tokens ≡ 0)
change_password-ok_example =
    change_password-ok service "access" "correct horse" "new password" env world changed refl
      change_password-changed

-- The connection is lost at the statement that revokes the sessions.
abbrev lost_env : Env
lost_env = record env { fails = λ n. n == 6 }

abbrev undone : World
undone = (change_password service "access" "correct horse" "new password" lost_env world).1

change_password-undone :
    change_password service "access" "correct horse" "new password" lost_env world
    ≡ (err wow_dashboard_api.Store.Effect.internal, undone)
unfolding change_password
change_password-undone = refl

change_password-err_example : undone.db ≡ world.db
change_password-err_example =
    change_password-err service "access" "correct horse" "new password" lost_env world undone _ refl
      change_password-undone

abbrev reset_done : World
reset_done = (reset_password service "reset" "new password" env world).1

reset_password-reset_done :
    reset_password service "reset" "new password" env world ≡ (ok tt, reset_done)
unfolding reset_password wow_dashboard_api.Prelude.Text.trim_space
reset_password-reset_done = refl

reset_password-ok_example :
    (t : AuthToken) × (hash : String) × (usable env world "reset" 101 ≡ some t)
    × (service.password.hash "new password" 0 ≡ some hash)
    × (min_password_length ≤ len "new password")
    × (len "new password" ≤ max_password_length)
    × IsReplaced t.user_id hash 101 world reset_done
    × (reset_done.db.auth_tokens ≡ spent env "reset" 101 world.db.auth_tokens)
    × (count_where (λ r. r.user_id == t.user_id && is_live r) reset_done.db.refresh_tokens ≡ 0)
reset_password-ok_example =
    reset_password-ok service "reset" "new password" env world reset_done refl
      reset_password-reset_done

reset_done_later : env.clock (world.calls + 1) ≤ env.clock (reset_done.calls + 1)
unfolding reset_password
reset_done_later = omega arith

reset_password_twice_example :
    reset_password service "reset" "another password" env reset_done ≢ (ok tt, reset_done)
reset_password_twice_example =
    reset_password_twice service "reset" "new password" "another password" env world reset_done
      reset_done refl reset_done_later reset_password-reset_done

abbrev refused : World
refused = (reset_password service "guess" "new password" env world).1

reset_password-refused :
    reset_password service "guess" "new password" env world ≡ (err invalid_token, refused)
unfolding reset_password wow_dashboard_api.Prelude.Text.trim_space
reset_password-refused = refl

reset_password-err_example :
    (refused.db.users ≡ world.db.users)
    × (refused.db.refresh_tokens ≡ world.db.refresh_tokens)
    × (refused.db.auth_tokens ≡ world.db.auth_tokens)
reset_password-err_example =
    reset_password-err service "guess" "new password" env world refused invalid_token refl
      reset_password-refused
