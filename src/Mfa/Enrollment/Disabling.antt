-- ===== src/Mfa/Enrollment/Disabling.antt =====
-- Turning the second factor off: Disable of internal/mfa/service/service.go.
use wow_dashboard_api.Prelude.{
  ℕ, ◌+◌, ◌≡◌, refl, ap, ◌∙◌, String, Bool, true, false, not, none, [], arith, update_where,
  delete_where, Bool-cases, inl, inr,
}
use wow_dashboard_api.Prelude.Text.{trim_space, is_empty}
use wow_dashboard_api.Store.Schema.{MfaSecret, Db}
use wow_dashboard_api.Store.Effect.{
  Action, Env, World, Result, Error, ok, err, raise_if, invalid_code, called, ◌>>◌, mfa_disabled,
  bind-ok, bind-err, bind-err_total, transaction-err, transaction-ok,
}
use wow_dashboard_api.Auth.Users.{has_id}
use wow_dashboard_api.Mfa.Store.{
  owns_secret, owns_code, with_mfa, disable_mfa, write_disabling, lock_user, delete_user_mfa_secret,
  delete_recovery_codes, set_user_mfa_enabled, consume_recovery_code, get_mfa_secret,
}
use wow_dashboard_api.Mfa.Service.{
  MfaService, verify, settle_secret, verify_with_secret, redeem_code, disable, announce,
}
use wow_dashboard_api.Mfa.Codes.{get_mfa_secret-reads}
use wow_dashboard_api.Mfa.Enrollment.{announce-ok, announce-view}

verify_with_secret-view :
    (s : MfaService) (user : ℕ) (code : String) (m : MfaSecret) (env : Env) (w : World)
    → (verify_with_secret s user code m env w).1.db ≡ record w.db {
      recovery_codes = (verify_with_secret s user code m env w).1.db.recovery_codes;
    }
unfolding verify_with_secret redeem_code consume_recovery_code
verify_with_secret-view s user code m env w = ground arith

settle_secret-view :
    (s : MfaService) (user : ℕ) (code : String) (found : Result MfaSecret) (env : Env) (w : World)
    → (settle_secret s user code found env w).1.db
      ≡ record w.db { recovery_codes = (settle_secret s user code found env w).1.db.recovery_codes }
unfolding settle_secret
settle_secret-view s user code (ok m) env w = verify_with_secret-view s user code m env w
settle_secret-view s user code (err e) env w = ground arith

-- A verification changes nothing but recovery codes.
pub verify-view :
    (s : MfaService) (user : ℕ) (code : String) (env : Env) (w : World)
    → (verify s user code env w).1.db
      ≡ record w.db { recovery_codes = (verify s user code env w).1.db.recovery_codes }
unfolding verify
verify-view s user code env w =
    let read = get_mfa_secret-reads user env w in
    let rest =
      settle_secret-view s user (trim_space code) (get_mfa_secret user env w).0 env
        (record w { calls = w.calls + 1 }) in
    elim (Bool-cases (is_empty (trim_space code))) [
      | inl blank ↦ ground arith
      | inr filled ↦ ground arith
    ]

write_disabling-ok :
    (user now : ℕ) (env : Env) (w w' : World)
    → write_disabling user now env w ≡ (ok tt, w')
    → w'.db ≡ record w.db {
      users = update_where (has_id user) (with_mfa false none now) w.db.users;
      mfa_secrets = delete_where (owns_secret user) w.db.mfa_secrets;
      recovery_codes = delete_where (owns_code user) w.db.recovery_codes;
    }
unfolding write_disabling lock_user delete_user_mfa_secret delete_recovery_codes
    set_user_mfa_enabled
write_disabling-ok user now env w w' e = ground arith

-- Disable after the code is checked.
disable_verified : MfaService → ℕ → Action (Unit {0})
disable_verified s user env w =
    (disable_mfa user (env.clock w.calls)
        >> announce s "auth.mfa.disabled" (mfa_disabled user) user)
      env (called w)

disable_verified-ok :
    (s : MfaService) (user : ℕ) (env : Env) (w w' : World)
    → disable_verified s user env w ≡ (ok tt, w')
    → (at : ℕ) × (w'.db ≡ record w.db {
      users = update_where (has_id user) (with_mfa false none at) w.db.users;
      mfa_secrets = delete_where (owns_secret user) w.db.mfa_secrets;
      recovery_codes = delete_where (owns_code user) w.db.recovery_codes;
      system_events = w'.db.system_events;
    })
unfolding disable_verified disable_mfa
disable_verified-ok s user env w w' e =
    let (done, w₁, written, told) =
      bind-ok (disable_mfa user (env.clock w.calls))
        (λ _. announce s "auth.mfa.disabled" (mfa_disabled user) user) env (called w) w' tt e in
    let (w₂, body, closed) =
      transaction-ok (write_disabling user (env.clock w.calls)) env (called w) w₁ tt written in
    let left = write_disabling-ok user (env.clock w.calls) env (called (called w)) w₂ body in
    (
      env.clock w.calls,
      announce-view s "auth.mfa.disabled" (mfa_disabled user) user env w₁ w' told
          ∙ ap {A = Db} (λ d. record d { system_events = w'.db.system_events })
              (ap (λ x. x.db) closed ∙ left),
    )

disable_verified-err :
    (s : MfaService) (user : ℕ) (env : Env) (w : World) (e : Error)
    → (disable_verified s user env w).0 ≡ err e
    → (disable_verified s user env w).1.db ≡ w.db
unfolding disable_verified disable_mfa
disable_verified-err s user env w e h =
    bind-err_total (λ v. v.db) (disable_mfa user (env.clock w.calls))
      (λ _. announce s "auth.mfa.disabled" (mfa_disabled user) user) env (called w) e
      (transaction-err (write_disabling user (env.clock w.calls)) env (called w) e)
      (λ _ v never.
        let event = announce-ok s "auth.mfa.disabled" (mfa_disabled user) user env v in
        ground arith)
      h

verified-view :
    (s : MfaService) (user : ℕ) (code : String) (valid : Bool) (env : Env) (w v : World)
    → verify s user code env w ≡ (ok valid, v)
    → v.db ≡ record w.db { recovery_codes = v.db.recovery_codes }
verified-view s user code valid env w v e = let view = verify-view s user code env w in ground arith

after_verify-ok :
    (s : MfaService) (user : ℕ) (valid : Bool) (env : Env) (w w' : World)
    → (raise_if (not valid) invalid_code >> disable_verified s user) env w ≡ (ok tt, w')
    → (valid ≡ true) × (disable_verified s user env w ≡ (ok tt, w'))
after_verify-ok s user true env w w' e = (refl, e)
after_verify-ok s user false env w w' e = absurd (ground arith)

-- Disabling succeeds only with a code that the verification accepts. Afterwards the user has no
-- secret and no recovery code and the factor is off; the secrets and codes of other users are kept.
pub disable-ok :
    (s : MfaService) (user : ℕ) (code : String) (env : Env) (w w' : World)
    → disable s user code env w ≡ (ok tt, w')
    → (v : World) × (at : ℕ) × (verify s user code env w ≡ (ok true, v))
      × (w'.db ≡ record w.db {
        users = update_where (has_id user) (with_mfa false none at) w.db.users;
        mfa_secrets = delete_where (owns_secret user) w.db.mfa_secrets;
        recovery_codes = delete_where (owns_code user) v.db.recovery_codes;
        system_events = w'.db.system_events;
      })
unfolding disable disable_verified
disable-ok s user code env w w' e =
    let (valid, v, verified, rest) =
      bind-ok (verify s user code)
        (λ valid. raise_if (not valid) invalid_code >> disable_verified s user) env w w' tt e in
    let (accepted, rest') = after_verify-ok s user valid env v w' rest in
    let (at, left) = disable_verified-ok s user env v w' rest' in
    (
      v,
      at,
      verified ∙ ap (λ b. (ok b, v)) accepted,
      left
          ∙ ap {A = Db}
              (λ d. record d {
                users = update_where (has_id user) (with_mfa false none at) d.users;
                mfa_secrets = delete_where (owns_secret user) d.mfa_secrets;
                recovery_codes = delete_where (owns_code user) v.db.recovery_codes;
                system_events = w'.db.system_events;
              })
              (verified-view s user code valid env w v verified),
    )

abbrev pub without_codes : World → Db
without_codes w = record w.db { recovery_codes = [] }

-- A request to disable the factor that fails, for a wrong code or any other reason, changes nothing
-- but the recovery codes, of which it may have used one.
pub disable-err :
    (s : MfaService) (user : ℕ) (code : String) (env : Env) (w : World) (e : Error)
    → (disable s user code env w).0 ≡ err e
    → without_codes (disable s user code env w).1 ≡ without_codes w
unfolding disable disable_verified
disable-err s user code env w e h =
    bind-err without_codes (verify s user code)
      (λ valid. raise_if (not valid) invalid_code >> disable_verified s user) env w e
      (ap {A = Db} (λ d. record d { recovery_codes = [] }) (verify-view s user code env w))
      (λ valid v.
        bind-err without_codes (raise_if (not valid) invalid_code) (λ _. disable_verified s user)
          env v e refl
          (λ _ v' h'.
            ap {A = Db} (λ d. record d { recovery_codes = [] })
              (disable_verified-err s user env v' e h')))
      h
