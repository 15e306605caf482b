-- ===== src/Mfa/Enrollment/Confirm.antt =====
-- Confirming the first code: Confirm of internal/mfa/service/service.go.
use wow_dashboard_api.Prelude.{
  ℕ, ◌+◌, ◌≡◌, ◌≢◌, refl, String, Bool, true, not, some, Option, List, map, arith, find_where,
  Option-cases, inl, inr,
}
use wow_dashboard_api.Prelude.Text.{trim_space}
use wow_dashboard_api.Store.Schema.{MfaSecret, Db}
use wow_dashboard_api.Store.Effect.{
  Env, World, Error, ok, err, raise_if, or_raise, or_else, invalid_code, internal, called, bind-err,
  bind-err_total, mfa_enabled, ◌>>◌, transaction-err,
}
use wow_dashboard_api.Auth.Service.{now}
use wow_dashboard_api.Mfa.Store.{owns_secret, complete_enrollment, write_enrollment, get_mfa_secret}
use wow_dashboard_api.Mfa.Service.{
  MfaService, no_enrollment, hash_recovery_code, is_valid, new_recovery_codes, enroll, confirm,
  confirm_with, report_codes, recovery_code_count,
}
use wow_dashboard_api.Mfa.Enrollment.{IsEnrolled, enroll-ok, announce-ok, new_recovery_codes-keeps}

-- The stored secret takes the code.
abbrev pub IsConfirmed : MfaService → ℕ → String → ℕ → Db → Type 0
IsConfirmed s user code at d =
    (m : MfaSecret) × (plain : String) × (find_where (owns_secret user) d.mfa_secrets ≡ some m)
    × (s.decrypt m.secret_encrypted ≡ some plain)
    × (s.validate_totp (trim_space code) plain at m.period ≡ some true)

is_valid-inv : (o : Option Bool) → is_valid o ≡ true → o ≡ some true
is_valid-inv o e = ground arith

confirm-enrolls :
    (s : MfaService) (user : ℕ) (code : String) (env : Env) (w w' : World) (codes : List String)
    → confirm s user code env w ≡ (ok codes, w')
    → IsConfirmed s user code (env.clock (w.calls + 1)) w.db
      × (enroll s user env (record w { calls = w.calls + 2 }) ≡ (ok codes, w'))
unfolding confirm confirm_with get_mfa_secret
confirm-enrolls s user code env w w' codes e =
    elim (Option-cases (find_where (owns_secret user) w.db.mfa_secrets)) [
      | inl missing ↦ absurd (ground arith)
      | inr (m, found) ↦ elim (Option-cases (s.decrypt m.secret_encrypted)) [
        | inl lost ↦ absurd (ground arith)
        | inr (plain, opened) ↦ (
          (
            m,
            plain,
            found,
            opened,
            is_valid-inv
                (s.validate_totp (trim_space code) plain (env.clock (w.calls + 1)) m.period)
                (ground arith),
          ),
          ground arith,
        )
      ]
    ]

-- A confirmation that succeeds was given a current code of the stored secret of an account that had
-- no second factor, and turns the factor on with ten recovery codes: of the user's codes exactly
-- the hashes of the answered ones are stored, unused, and nothing else but the events is changed.
pub confirm-ok :
    (s : MfaService) (user : ℕ) (code : String) (env : Env) (w w' : World) (codes : List String)
    → confirm s user code env w ≡ (ok codes, w')
    → IsConfirmed s user code (env.clock (w.calls + 1)) w.db × IsEnrolled user codes env w w'
confirm-ok s user code env w w' codes e =
    let (valid, rest) = confirm-enrolls s user code env w w' codes e in
    (valid, enroll-ok s user env (record w { calls = w.calls + 2 }) w' codes rest)

complete_enrollment-err :
    (user : ℕ) (hashes : List String) (at now : ℕ) (env : Env) (w : World) (e : Error)
    → (complete_enrollment user hashes at now env w).0 ≡ err e
    → (complete_enrollment user hashes at now env w).1.db ≡ w.db
unfolding complete_enrollment
complete_enrollment-err user hashes at now env w e h =
    transaction-err (write_enrollment user hashes at now) env w e h

report_codes-total :
    (s : MfaService) (user : ℕ) (codes : List String) (env : Env) (w : World) (e : Error)
    → (report_codes s user codes env w).0 ≢ err e
unfolding report_codes
report_codes-total s user codes env w e h =
    let told = announce-ok s "auth.mfa.enabled" (mfa_enabled user) user env w in ground arith

enroll-err :
    (s : MfaService) (user : ℕ) (env : Env) (w : World) (e : Error)
    → (enroll s user env w).0 ≡ err e
    → (enroll s user env w).1.db ≡ w.db
unfolding enroll
enroll-err s user env w e h =
    bind-err (λ v. v.db) (new_recovery_codes s recovery_code_count)
      (λ raw env v.
        (complete_enrollment user (map (hash_recovery_code env) raw) (env.clock v.calls)
              (env.clock v.calls)
            >> report_codes s user raw)
          env (called v))
      env w e (new_recovery_codes-keeps s recovery_code_count env w)
      (λ raw v.
        bind-err_total (λ v'. v'.db)
          (complete_enrollment user (map (hash_recovery_code env) raw) (env.clock v.calls)
            (env.clock v.calls))
          (λ _. report_codes s user raw) env (called v) e
          (complete_enrollment-err user (map (hash_recovery_code env) raw) (env.clock v.calls)
            (env.clock v.calls) env (called v) e)
          (λ _ v'. report_codes-total s user raw env v' e))
      h

confirm_with-err :
    (s : MfaService) (user : ℕ) (code : String) (m : MfaSecret) (env : Env) (w : World) (e : Error)
    → (confirm_with s user code m env w).0 ≡ err e
    → (confirm_with s user code m env w).1.db ≡ w.db
unfolding confirm_with
confirm_with-err s user code m env w e h =
    bind-err (λ v. v.db) (or_raise (s.decrypt m.secret_encrypted) internal)
      (λ plain env v.
        (raise_if
              (not
                (is_valid (s.validate_totp (trim_space code) plain (env.clock v.calls) m.period)))
              invalid_code
            >> enroll s user)
          env (called v))
      env w e (ground arith)
      (λ plain v.
        bind-err (λ v'. v'.db)
          (raise_if
            (not (is_valid (s.validate_totp (trim_space code) plain (env.clock v.calls) m.period)))
            invalid_code)
          (λ _. enroll s user) env (called v) e refl (λ _ v'. enroll-err s user env v' e))
      h

-- A confirmation that fails, at whatever step, leaves the database as it was.
pub confirm-err :
    (s : MfaService) (user : ℕ) (code : String) (env : Env) (w : World) (e : Error)
    → (confirm s user code env w).0 ≡ err e
    → (confirm s user code env w).1.db ≡ w.db
unfolding confirm get_mfa_secret
confirm-err s user code env w e h =
    bind-err (λ v. v.db) (or_else no_enrollment (get_mfa_secret user)) (confirm_with s user code)
      env w e (ground arith) (λ m v. confirm_with-err s user code m env v e) h
