-- ===== src/Mfa/Enrollment.antt =====
-- Turning the second factor on: Setup and Confirm of internal/mfa/service/service.go with their
-- transactions of internal/store/authrepo/mfa.go.
pub mod Confirm
pub mod Disabling
pub mod Invariant
use wow_dashboard_api.Prelude.{
  ℕ, zero, suc, ◌+◌, ◌≡◌, refl, ap, sym, ◌∙◌, String, Bool, true, false, some, none, Option, List,
  [], ◌∷◌, ◌++◌, map, arith, length, find_where, update_where, delete_where, Option-cases,
  Bool-cases, inl, inr,
}
use wow_dashboard_api.Prelude.Text.{trim_space}
use wow_dashboard_api.Store.Schema.{RecoveryCode, MfaSecret, User, Db}
use wow_dashboard_api.Store.Effect.{
  Action, Alert, mfa_enabled, ◌>>◌, Env, World, Error, Result, called, ok, err, transaction, pure,
  ◌>>=◌, bind-ok, bind-keeps, transaction-ok, transaction-err,
}
use wow_dashboard_api.Auth.Users.{has_id}
use wow_dashboard_api.Mfa.Store.{
  owns_secret, owns_code, code_row, with_mfa, create_recovery_codes, create_recovery_code,
  write_enrollment, complete_enrollment, lock_user, delete_recovery_codes, set_user_mfa_enabled,
}
use wow_dashboard_api.Mfa.Service.{
  MfaService, hash_recovery_code, is_valid, new_recovery_code, new_recovery_codes, enroll, confirm,
  announce, report_codes, record_mfa_audit, record_mfa_event, recovery_code_count,
}

-- The rows of the recovery codes with these hashes, inserted from the `n`-th call on.
abbrev pub code_rows : Env → ℕ → ℕ → List String → ℕ → List RecoveryCode
code_rows env n user [] now = []
code_rows env n user (hash ∷ hashes) now =
    code_row (env.new_uuid n) user hash now ∷ code_rows env (n + 1 + 1) user hashes now

append_nil : {A : Type 0} (xs : List A) → xs ++ [] ≡ xs
append_nil [] = refl
append_nil (x ∷ xs) = ap (λ l. x ∷ l) (append_nil xs)

append_assoc : {A : Type 0} (xs ys zs : List A) → (xs ++ ys) ++ zs ≡ xs ++ (ys ++ zs)
append_assoc [] ys zs = refl
append_assoc (x ∷ xs) ys zs = ap (λ l. x ∷ l) (append_assoc xs ys zs)

create_recovery_code-ok :
    (id user : ℕ) (hash : String) (now : ℕ) (env : Env) (w w' : World)
    → create_recovery_code id user hash now env w ≡ (ok tt, w')
    → w' ≡ record w {
      calls = w.calls + 1;
      db = record w.db { recovery_codes = w.db.recovery_codes ++ code_row id user hash now ∷ [] };
    }
unfolding create_recovery_code
create_recovery_code-ok id user hash now env w w' e = ground arith

create_recovery_codes-ok :
    (user : ℕ) (hashes : List String) (now : ℕ) (env : Env) (w w' : World)
    → create_recovery_codes user hashes now env w ≡ (ok tt, w')
    → w'.db ≡ record w.db {
      recovery_codes = w.db.recovery_codes ++ code_rows env w.calls user hashes now;
    }
unfolding create_recovery_codes
create_recovery_codes-ok user [] now env w w' e =
    let none_added = append_nil w.db.recovery_codes in ground arith
create_recovery_codes-ok user (hash ∷ hashes) now env w w' e =
    let (done, w₁, stored, rest) =
      bind-ok (create_recovery_code (env.new_uuid w.calls) user hash now)
        (λ _. create_recovery_codes user hashes now) env (called w) w' tt e in
    let first =
      create_recovery_code-ok (env.new_uuid w.calls) user hash now env (called w) w₁ stored in
    let others = create_recovery_codes-ok user hashes now env w₁ w' rest in
    let split =
      append_assoc w.db.recovery_codes (code_row (env.new_uuid w.calls) user hash now ∷ [])
        (code_rows env (w.calls + 1 + 1) user hashes now) in
    ground arith

pub new_recovery_codes-keeps :
    (s : MfaService) (n : ℕ) (env : Env) (w : World) → (new_recovery_codes s n env w).1.db ≡ w.db
unfolding new_recovery_codes
new_recovery_codes-keeps s zero env w = refl
new_recovery_codes-keeps s (suc n) env w =
    bind-keeps (λ v. v.db) (new_recovery_code s)
      (λ raw. new_recovery_codes s n >>= λ rest. pure (raw ∷ rest)) env w (ground arith)
      (λ raw v.
        bind-keeps (λ v'. v'.db) (new_recovery_codes s n) (λ rest. pure (raw ∷ rest)) env v
          (new_recovery_codes-keeps s n env v) (λ rest v'. refl))

length-new_recovery_codes :
    (s : MfaService) (n : ℕ) (env : Env) (w w' : World) (codes : List String)
    → new_recovery_codes s n env w ≡ (ok codes, w')
    → length codes ≡ n
unfolding new_recovery_codes
length-new_recovery_codes s zero env w w' codes e = ground arith
length-new_recovery_codes s (suc n) env w w' codes e =
    let (raw, w₁, drawn, more) =
      bind-ok (new_recovery_code s) (λ raw. new_recovery_codes s n >>= λ rest. pure (raw ∷ rest))
        env w w' codes e in
    let (rest, w₂, drawn', last) =
      bind-ok (new_recovery_codes s n) (λ rest. pure (raw ∷ rest)) env w₁ w' codes more in
    let shorter = length-new_recovery_codes s n env w₁ w₂ rest drawn' in ground arith

-- What follows the lock, where the account has no second factor yet.
write_enrollment-rest :
    (user : ℕ) (hashes : List String) (at now : ℕ) (env : Env) (w w' : World)
    → write_enrollment user hashes at now env w ≡ (ok tt, w')
    → (u : User) × (find_where (has_id user) w.db.users ≡ some u)
      × (u.mfa_enabled ≡ false)
      × ((create_recovery_codes user hashes now >>= λ _.
              set_user_mfa_enabled user true (some at) now)
            env
            (record w {
              calls = w.calls + 2;
              db = record w.db {
                recovery_codes = delete_where (owns_code user) w.db.recovery_codes;
              };
            })
          ≡ (ok tt, w'))
unfolding write_enrollment lock_user delete_recovery_codes
write_enrollment-rest user hashes at now env w w' e =
    elim (Option-cases (find_where (has_id user) w.db.users)) [
      | inl missing ↦ absurd (ground arith)
      | inr (u, found) ↦ (u, found, ground arith, ground arith)
    ]

set_user_mfa_enabled-ok :
    (user : ℕ) (enabled : Bool) (confirmed : Option ℕ) (now : ℕ) (env : Env) (w w' : World)
    → set_user_mfa_enabled user enabled confirmed now env w ≡ (ok tt, w')
    → w'.db ≡ record w.db {
      users = update_where (has_id user) (with_mfa enabled confirmed now) w.db.users;
    }
unfolding set_user_mfa_enabled
set_user_mfa_enabled-ok user enabled confirmed now env w w' e = ground arith

-- What a completed enrolment has written.
complete_enrollment-ok :
    (user : ℕ) (hashes : List String) (at now : ℕ) (env : Env) (w w' : World)
    → complete_enrollment user hashes at now env w ≡ (ok tt, w')
    → (u : User) × (find_where (has_id user) w.db.users ≡ some u)
      × (u.mfa_enabled ≡ false)
      × (w'.db ≡ record w.db {
        users = update_where (has_id user) (with_mfa true (some at) now) w.db.users;
        recovery_codes =
            delete_where (owns_code user) w.db.recovery_codes
            ++ code_rows env (w.calls + 1 + 2) user hashes now;
      })
unfolding complete_enrollment
complete_enrollment-ok user hashes at now env w w' e =
    let (w₁, body, closed) = transaction-ok (write_enrollment user hashes at now) env w w' tt e in
    let (u, found, free, rest) = write_enrollment-rest user hashes at now env (called w) w₁ body in
    let (done, w₂, coded, last) =
      bind-ok (create_recovery_codes user hashes now)
        (λ _. set_user_mfa_enabled user true (some at) now) env _ w₁ tt rest in
    let codes = create_recovery_codes-ok user hashes now env _ w₂ coded in
    let users = set_user_mfa_enabled-ok user true (some at) now env w₂ w₁ last in
    (
      u,
      found,
      free,
      ap (λ x. x.db) closed
          ∙ users
          ∙ ap {A = Db}
              (λ d. record d {
                users = update_where (has_id user) (with_mfa true (some at) now) d.users;
              })
              codes,
    )

-- The end of Confirm and of Disable cannot fail, and only records an event.
pub announce-ok :
    (s : MfaService) (event_type : String) (notice : Alert) (user : ℕ) (env : Env) (w : World)
    → ((announce s event_type notice user env w).0 ≡ ok tt)
      × ((announce s event_type notice user env w).1.db ≡ record w.db {
        system_events = (announce s event_type notice user env w).1.db.system_events;
      })
unfolding announce record_mfa_audit record_mfa_event
announce-ok s event_type notice user env w = (ground arith, ground arith)

pub announce-view :
    (s : MfaService) (event_type : String) (notice : Alert) (user : ℕ) (env : Env) (w w' : World)
    → announce s event_type notice user env w ≡ (ok tt, w')
    → w'.db ≡ record w.db { system_events = w'.db.system_events }
announce-view s event_type notice user env w w' e =
    let told = announce-ok s event_type notice user env w in ground arith

-- The user had no second factor. Now they have one, confirmed at some time, their recovery codes
-- are the unused rows of the ten that are answered, and nothing else but the events is changed.
abbrev pub IsEnrolled : ℕ → List String → Env → World → World → Type 0
IsEnrolled user codes env w w' =
    (u : User) × (at : ℕ) × (n : ℕ) × (find_where (has_id user) w.db.users ≡ some u)
    × (u.mfa_enabled ≡ false)
    × (length codes ≡ recovery_code_count)
    × (w'.db ≡ record w.db {
      users = update_where (has_id user) (with_mfa true (some at) at) w.db.users;
      recovery_codes =
          delete_where (owns_code user) w.db.recovery_codes
          ++ code_rows env n user (map (hash_recovery_code env) codes) at;
      system_events = w'.db.system_events;
    })

report_codes-ok :
    (s : MfaService) (user : ℕ) (codes codes' : List String) (env : Env) (w w' : World)
    → report_codes s user codes env w ≡ (ok codes', w')
    → (codes ≡ codes') × (w'.db ≡ record w.db { system_events = w'.db.system_events })
unfolding report_codes
report_codes-ok s user codes codes' env w w' e =
    let told = announce-ok s "auth.mfa.enabled" (mfa_enabled user) user env w in
    (ground arith, ground arith)

-- The three steps of an enrolment together.
enrolled :
    (user at n : ℕ) (raw codes : List String) (env : Env) (d d₁ d₂ d' : Db)
    → d₁ ≡ d
    → d₂ ≡ record d₁ {
      users = update_where (has_id user) (with_mfa true (some at) at) d₁.users;
      recovery_codes =
          delete_where (owns_code user) d₁.recovery_codes
          ++ code_rows env n user (map (hash_recovery_code env) raw) at;
    }
    → raw ≡ codes
    → d' ≡ record d₂ { system_events = d'.system_events }
    → d' ≡ record d {
      users = update_where (has_id user) (with_mfa true (some at) at) d.users;
      recovery_codes =
          delete_where (owns_code user) d.recovery_codes
          ++ code_rows env n user (map (hash_recovery_code env) codes) at;
      system_events = d'.system_events;
    }
enrolled user at n raw codes env d d₁ d₂ d' e₁ e₂ same told = ground arith

pub enroll-ok :
    (s : MfaService) (user : ℕ) (env : Env) (w w' : World) (codes : List String)
    → enroll s user env w ≡ (ok codes, w')
    → IsEnrolled user codes env w w'
unfolding enroll report_codes
enroll-ok s user env w w' codes e =
    let (raw, w₁, drawn, e₁) =
      bind-ok (new_recovery_codes s recovery_code_count)
        (λ raw env v.
          (complete_enrollment user (map (hash_recovery_code env) raw) (env.clock v.calls)
                (env.clock v.calls)
              >> report_codes s user raw)
            env (called v))
        env w w' codes e in
    let (done, w₂, written, e₂) =
      bind-ok
        (complete_enrollment user (map (hash_recovery_code env) raw) (env.clock w₁.calls)
          (env.clock w₁.calls))
        (λ _. report_codes s user raw) env (called w₁) w' codes e₁ in
    let (same, told) = report_codes-ok s user raw codes env w₂ w' e₂ in
    let (u, found, free, left) = complete_enrollment-ok user _ _ _ env (called w₁) w₂ written in
    let drawn_db : w₁.db ≡ w.db =
      ap (λ r. r.1.db) (sym drawn) ∙ new_recovery_codes-keeps s recovery_code_count env w in
    let ten = length-new_recovery_codes s recovery_code_count env w w₁ raw drawn in
    (
      u,
      env.clock w₁.calls,
      w₁.calls + 1 + 1 + 2,
      ap (λ d. find_where (has_id user) d.users) (sym drawn_db) ∙ found,
      free,
      ground arith,
      enrolled user _ _ raw codes env w.db w₁.db w₂.db w'.db drawn_db left same told,
    )
