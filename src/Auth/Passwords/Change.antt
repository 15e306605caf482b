-- ===== src/Auth/Passwords/Change.antt =====
-- Changing a password: ChangePassword of internal/auth/service/service.go.
use Prim.Native.String.{len}
use mathlib.Core.Path.{subst}
use wow_dashboard_api.Prelude.{
  ℕ, ◌+◌, ◌≤◌, ◌≡◌, ◌≢◌, String, true, false, some, none, ◌==◌, ◌&&◌, arith, find_where,
  update_where, count_where, Option-cases, inl, inr, count_where-update_where_zero,
}
use wow_dashboard_api.Store.Schema.{User}
use wow_dashboard_api.Store.Effect.{Env, World, Result, Error, ok, err, transaction}
use wow_dashboard_api.Auth.RefreshTokens.{is_live, revoke, revoke_where}
use wow_dashboard_api.Auth.Users.{has_id, with_password}
use wow_dashboard_api.Auth.Audit.{AuditEvent}
use wow_dashboard_api.Auth.Service.{
  Service, Claims, is_disabled, min_password_length, max_password_length,
}
use wow_dashboard_api.Auth.Passwords.{
  change_password, change_found, store_password, replace_password, access_subject,
  password_changed_event,
}

-- A transaction that ends with an error leaves the database as it was.
pub transaction-err :
    {A : Type 0} (body : Env → World → Result A × World) (env : Env) (w w' : World) (e : Error)
    → transaction body env w ≡ (err e, w')
    → w'.db ≡ w.db
transaction-err body env w w' e h = ground arith

-- What a password change leaves of the accounts and the tokens.
abbrev pub IsReplaced : ℕ → String → ℕ → World → World → Type 0
IsReplaced user hash at w w' =
    (w'.db.users ≡ update_where (has_id user) (with_password hash at) w.db.users)
    × (w'.db.refresh_tokens ≡ revoke_where (λ t. t.user_id == user) at w.db.refresh_tokens)

pub replace_password-ok :
    (s : Service) (event : String → AuditEvent) (user : ℕ) (hash : String) (at : ℕ) (env : Env)
    (w w' : World)
    → replace_password s event user hash at env w ≡ (ok tt, w')
    → IsReplaced user hash at w w' × (w'.db.auth_tokens ≡ w.db.auth_tokens)
unfolding replace_password
replace_password-ok s event user hash at env w w' h = ((ground arith, ground arith), ground arith)

store_password-ok :
    (s : Service) (user : ℕ) (hash : String) (at : ℕ) (env : Env) (w w' : World)
    → s.unit_of_work ≡ true
    → store_password s user hash at env w ≡ (ok tt, w')
    → IsReplaced user hash at w w'
unfolding store_password
store_password-ok s user hash at env w w' atomic h =
    let replaced =
      replace_password-ok s password_changed_event user hash at env
        (record w { calls = w.calls + 1 }) in
    (grind (arith, replaced), grind (arith, replaced))

store_password-err :
    (s : Service) (user : ℕ) (hash : String) (at : ℕ) (env : Env) (w w' : World) (e : Error)
    → s.unit_of_work ≡ true
    → store_password s user hash at env w ≡ (err e, w')
    → w'.db ≡ w.db
unfolding store_password
store_password-err s user hash at env w w' e atomic h = ground arith

change_found-stores :
    (s : Service) (u : User) (user : ℕ) (old new hash : String) (env : Env) (w w' : World)
    → s.password.hash new w.calls ≡ some hash
    → change_found s u user old new env w ≡ (ok tt, w')
    → (is_disabled u ≡ false)
      × (s.password.verify old u.password_hash ≡ some true)
      × (store_password s user hash (env.clock (w.calls + 1)) env (record w { calls = w.calls + 2 })
          ≡ (ok tt, w'))
unfolding change_found
change_found-stores s u user old new hash env w w' hashed e =
    (ground arith, ground arith, ground arith)

change_found-hashes :
    (s : Service) (u : User) (user : ℕ) (old new : String) (env : Env) (w w' : World)
    → change_found s u user old new env w ≡ (ok tt, w')
    → s.password.hash new w.calls ≢ none
unfolding change_found
change_found-hashes s u user old new env w w' e lost = ground arith

change_found-ok :
    (s : Service) (u : User) (user : ℕ) (old new : String) (env : Env) (w w' : World)
    → s.unit_of_work ≡ true
    → change_found s u user old new env w ≡ (ok tt, w')
    → (hash : String) × (s.password.hash new w.calls ≡ some hash)
      × (is_disabled u ≡ false)
      × (s.password.verify old u.password_hash ≡ some true)
      × IsReplaced user hash (env.clock (w.calls + 1)) w w'
change_found-ok s u user old new env w w' atomic e =
    elim (Option-cases (s.password.hash new w.calls)) [
      | inl lost ↦ absurd (change_found-hashes s u user old new env w w' e lost)
      | inr (hash, hashed) ↦
          let (enabled, right, stored) =
            change_found-stores s u user old new hash env w w' hashed e in
          (hash, hashed, enabled, right, store_password-ok s user hash _ env _ w' atomic stored)
    ]

change_found-err :
    (s : Service) (u : User) (user : ℕ) (old new : String) (env : Env) (w w' : World) (e : Error)
    → s.unit_of_work ≡ true
    → change_found s u user old new env w ≡ (err e, w')
    → w'.db ≡ w.db
unfolding change_found
change_found-err s u user old new env w w' e atomic h =
    let stored = λ (hash : String).
      store_password-err s user hash (env.clock (w.calls + 1)) env
        (record w { calls = w.calls + 2 }) w' e atomic in
    grind (arith, stored)

-- The account that an access token names.
abbrev pub NamedAccount : Service → Env → World → String → ℕ → User → Type 0
NamedAccount s env w raw user u =
    (claims : Claims) × (s.token_manager.verify_access_token raw w.calls ≡ some claims)
    × (env.parse_uuid claims.subject ≡ some user)
    × (find_where (has_id user) w.db.users ≡ some u)

-- How a change goes on, once its token and its account are read.
change_password-checks :
    (s : Service) (raw old new : String) (env : Env) (w w' : World) (claims : Claims) (user : ℕ)
    (u : User)
    → s.token_manager.verify_access_token raw w.calls ≡ some claims
    → env.parse_uuid claims.subject ≡ some user
    → find_where (has_id user) w.db.users ≡ some u
    → change_password s raw old new env w ≡ (ok tt, w')
    → (min_password_length ≤ len new)
      × (len new ≤ max_password_length)
      × (change_found s u user old new env (record w { calls = w.calls + 2 }) ≡ (ok tt, w'))
unfolding change_password access_subject
change_password-checks s raw old new env w w' claims user u valid parsed found e =
    (ground arith, ground arith, ground arith)

-- With a unit of work, a change that succeeds was asked with a valid access token and the current
-- password of an account that is not disabled, and for a new password of an allowed length.
-- Afterwards the account has the new hash, every refresh token of its user is revoked, and no
-- other account is changed.
pub change_password-ok :
    (s : Service) (raw old new : String) (env : Env) (w w' : World)
    → s.unit_of_work ≡ true
    → change_password s raw old new env w ≡ (ok tt, w')
    → (user : ℕ) × (u : User) × (hash : String) × NamedAccount s env w raw user u
      × (is_disabled u ≡ false)
      × (s.password.verify old u.password_hash ≡ some true)
      × (min_password_length ≤ len new)
      × (len new ≤ max_password_length)
      × (s.password.hash new (w.calls + 2) ≡ some hash)
      × IsReplaced user hash (env.clock (w.calls + 3)) w w'
      × (count_where (λ t. t.user_id == user && is_live t) w'.db.refresh_tokens ≡ 0)
unfolding change_password access_subject
change_password-ok s raw old new env w w' atomic e =
    elim (Option-cases (s.token_manager.verify_access_token raw w.calls)) [
      | inl refused ↦ absurd (ground arith)
      | inr (claims, valid) ↦ elim (Option-cases (env.parse_uuid claims.subject)) [
        | inl no_id ↦ absurd (ground arith)
        | inr (user, parsed) ↦ elim (Option-cases (find_where (has_id user) w.db.users)) [
          | inl no_user ↦ absurd (ground arith)
          | inr (u, found) ↦
              let (enough, bounded, changed) =
                change_password-checks s raw old new env w w' claims user u valid parsed found e in
              let (hash, hashed, enabled, right, replaced) =
                change_found-ok s u user old new env _ w' atomic changed in
              let third : w.calls + 2 + 1 ≡ w.calls + 3 = omega arith in
              let (users, tokens) =
                subst (λ n. IsReplaced user hash (env.clock n) w w') third replaced in
              (
                user,
                u,
                hash,
                (claims, valid, parsed, found),
                enabled,
                right,
                enough,
                bounded,
                hashed,
                (users, tokens),
                rw tokens (
                    count_where-update_where_zero (λ t. t.user_id == user && is_live t)
                      (λ t. t.user_id == user && is_live t) (revoke (env.clock (w.calls + 3)))
                      (λ t. ground arith) w.db.refresh_tokens),
              )
        ]
      ]
    ]

-- With a unit of work, a change that fails, at whatever step, leaves the database as it was.
pub change_password-err :
    (s : Service) (raw old new : String) (env : Env) (w w' : World) (e : Error)
    → s.unit_of_work ≡ true
    → change_password s raw old new env w ≡ (err e, w')
    → w'.db ≡ w.db
unfolding change_password access_subject
change_password-err s raw old new env w w' e atomic h =
    let changed = λ (u : User) (user : ℕ).
      change_found-err s u user old new env (record w { calls = w.calls + 2 }) w' e atomic in
    grind (arith, changed)
