-- ===== src/Auth/SignIn/Lockout.antt =====
-- The lockout of an account after failed sign-ins: RegisterLoginFailure and its use by SignIn.
use Prim.Native.String.{len}
use wow_dashboard_api.Prelude.{
  ℕ, ◌+◌, ◌≤◌, ◌<◌, ◌≡◌, refl, false, some, List, [], ◌∷◌, arith, ◌∙◌, length, update_where, ltb,
  Bool-cases, inl, inr,
}
use wow_dashboard_api.Store.Schema.{User}
use wow_dashboard_api.Store.Effect.{Env, World, err, invalid_credentials}
use wow_dashboard_api.Auth.Users.{count_failure, has_id, is_after}
use wow_dashboard_api.Auth.Service.{Service, max_password_length}
use wow_dashboard_api.Auth.SignIn.Steps.{
  account, refuse-eq, sign_in-settles, sign_in-too_long, sign_in_found-locked, sign_in_found-wrong,
}
use wow_dashboard_api.Auth.SignIn.{SignInInput, sign_in}

-- An account after failed sign-ins, given by the times (lock until, now) that each registers.
abbrev pub after_failures : ℕ → List (ℕ × ℕ) → User → User
after_failures limit [] u = u
after_failures limit ((lock_until, at) ∷ rest) u =
    after_failures limit rest (count_failure limit lock_until at u)

-- Failures below the limit are counted and lock nothing.
pub after_failures_below :
    (limit : ℕ) (failures : List (ℕ × ℕ)) (u : User)
    → u.failed_login_count + length failures < limit
    → ((after_failures limit failures u).failed_login_count
        ≡ u.failed_login_count + length failures)
      × ((after_failures limit failures u).locked_until ≡ u.locked_until)
after_failures_below limit [] u h = (omega arith, refl)
after_failures_below limit ((lock_until, at) ∷ rest) u h =
    ground (arith, after_failures_below limit rest (count_failure limit lock_until at u))

-- The failure that reaches the limit locks the account until the time that it registers, and the
-- count starts again; none of the failures before it locks.
pub after_failures_lock :
    (limit : ℕ) (failures : List (ℕ × ℕ)) (lock_until at : ℕ) (u : User)
    → u.failed_login_count + length failures + 1 ≡ limit
    → ((after_failures limit failures u).locked_until ≡ u.locked_until)
      × ((count_failure limit lock_until at (after_failures limit failures u)).locked_until
          ≡ some lock_until)
      × ((count_failure limit lock_until at (after_failures limit failures u)).failed_login_count
          ≡ 0)
after_failures_lock limit failures lock_until at u h =
    ground (arith, after_failures_below limit failures u)

-- While an account is locked every sign-in to it is refused with ErrInvalidCredentials or by a
-- failure of the database, also with the right password, and no account and no token is changed.
pub sign_in_locked :
    (s : Service) (input : SignInInput) (env : Env) (w : World) (u : User) (until : ℕ)
    → account w input ≡ some u
    → u.locked_until ≡ some until
    → env.clock w.calls < until
    → env.fails (w.calls + 1) ≡ false
    → let (r, w') = sign_in s input env w in
      (r ≡ err invalid_credentials)
      × (w'.db.users ≡ w.db.users)
      × (w'.db.refresh_tokens ≡ w.db.refresh_tokens)
sign_in_locked s input env w u until found locked before f =
    elim (Bool-cases (ltb max_password_length (len input.password))) [
      | inl long ↦
          rw (sign_in-too_long s input env w (ground arith) ∙ refuse-eq s _ _ _ _ env _)
            (refl, refl, refl)
      | inr short ↦
          rw
            (sign_in-settles s input env w u found f (ground arith)
              ∙ sign_in_found-locked s _ _ u _ until env _ locked before
              ∙ refuse-eq s _ _ _ _ env _)
            (refl, refl, refl)
    ]

-- A wrong password for an account that is not locked is counted against it, and against no other.
pub sign_in_wrong_password :
    (s : Service) (input : SignInInput) (env : Env) (w : World) (u : User)
    → account w input ≡ some u
    → is_after u.locked_until (env.clock w.calls) ≡ false
    → len input.password ≤ max_password_length
    → s.password.verify input.password u.password_hash ≡ some false
    → env.fails (w.calls + 1) ≡ false
    → env.fails (w.calls + 2) ≡ false
    → let (r, w') = sign_in s input env w in
      (r ≡ err invalid_credentials)
      × (w'.db.users
          ≡ update_where
              (has_id u.id)
              (count_failure s.max_failed_login_attempts
                (env.clock w.calls + s.account_lockout_window)
                (env.clock w.calls))
              w.db.users)
      × (w'.db.refresh_tokens ≡ w.db.refresh_tokens)
sign_in_wrong_password s input env w u found free short wrong f1 f2 =
    rw
      (sign_in-settles s input env w u found f1 short
        ∙ sign_in_found-wrong s _ _ u _ env _ free wrong f2
        ∙ refuse-eq s _ _ _ _ env _)
      (refl, refl, refl)
