-- ===== src/Auth/Passwords/Reset.antt =====
-- Resetting a password with a one-time token: ResetPassword of internal/auth/service/service.go.
use Prim.Native.String.{len}
use wow_dashboard_api.Prelude.{
  ℕ, ◌+◌, ◌≤◌, ◌≡◌, ◌≢◌, ap, String, true, some, none, Option, List, ◌==◌, ◌&&◌, arith, find_where,
  update_where, count_where, Option-cases, inl, inr, ◌∙◌, sym, count_where-update_where_zero,
}
use wow_dashboard_api.Prelude.Text.{trim_space}
use wow_dashboard_api.Store.Schema.{AuthToken, password_reset}
use wow_dashboard_api.Store.Effect.{Result-cases, Env, World, Error, ok, err}
use wow_dashboard_api.Auth.RefreshTokens.{is_live, revoke, revoke_where}
use wow_dashboard_api.Auth.AuthTokens.{is_consumable, use_at}
use wow_dashboard_api.Auth.AuthTokens.SingleUse.{find-consumed}
use wow_dashboard_api.Auth.Users.{has_id, with_password}
use wow_dashboard_api.Auth.Audit.{record_audit-eq}
use wow_dashboard_api.Auth.Service.{Service, min_password_length, max_password_length}
use wow_dashboard_api.Auth.Passwords.{
  reset_password, reset_in_transaction, replace_password, consume_token, password_reset_event,
  failed_event,
}
use wow_dashboard_api.Auth.Passwords.Change.{IsReplaced, replace_password-ok}

-- A reset token that is presented, by the hash of its trimmed text, if it may be used.
abbrev pub usable : Env → World → String → ℕ → Option AuthToken
usable env w raw at =
    find_where (is_consumable password_reset (env.sha256_hex (trim_space raw)) at) w.db.auth_tokens

abbrev pub spent : Env → String → ℕ → List AuthToken → List AuthToken
spent env raw at =
    update_where (is_consumable password_reset (env.sha256_hex (trim_space raw)) at) (use_at at)

consume_token-ok :
    (raw : String) (at : ℕ) (env : Env) (w w' : World) (t : AuthToken)
    → consume_token password_reset raw at env w ≡ (ok t, w')
    → (found : AuthToken) × (usable env w raw at ≡ some found)
      × (t ≡ use_at at found)
      × (w' ≡ record w {
        calls = w.calls + 1;
        db = record w.db { auth_tokens = spent env raw at w.db.auth_tokens };
      })
unfolding consume_token
consume_token-ok raw at env w w' t e = elim (Option-cases (usable env w raw at)) [
  | inl unusable ↦ absurd (ground arith)
  | inr (found, e') ↦ (found, e', ground arith, ground arith)
]

consume_token-none :
    (raw : String) (at : ℕ) (env : Env) (w : World) (t : AuthToken)
    → usable env w raw at ≡ none
    → (consume_token password_reset raw at env w).0 ≢ ok t
unfolding consume_token
consume_token-none raw at env w t e = ground arith

-- A reset in a transaction that commits has used the token.
reset_in_transaction-uses :
    (s : Service) (raw hash : String) (at user : ℕ) (env : Env) (w w' : World)
    → reset_in_transaction s raw hash at env w ≡ (ok user, w')
    → (t : AuthToken) × (w₁ : World) × (w₂ : World) × (consume_token password_reset raw at env
          (record w { calls = w.calls + 1 })
        ≡ (ok t, w₁))
      × (t.user_id ≡ user)
      × (replace_password s password_reset_event t.user_id hash at env w₁ ≡ (ok tt, w₂))
      × (w'.db ≡ w₂.db)
unfolding reset_in_transaction
reset_in_transaction-uses s raw hash at user env w w' e =
    elim (Result-cases
      (consume_token password_reset raw at env (record w { calls = w.calls + 1 })).0) [
        | inr (e', refused) ↦ absurd (ground arith)
        | inl (t, taken) ↦
            let w₁ =
              (consume_token password_reset raw at env (record w { calls = w.calls + 1 })).1 in
            elim (Result-cases
              (replace_password s password_reset_event t.user_id hash at env w₁).0) [
                | inr (e', failed) ↦ absurd (ground arith)
                | inl (done, replaced) ↦ (
                  t,
                  w₁,
                  (replace_password s password_reset_event t.user_id hash at env w₁).1,
                  ground arith,
                  ground arith,
                  ground arith,
                  ground arith,
                )
              ]
      ]

-- What such a reset leaves.
reset_in_transaction-ok :
    (s : Service) (raw hash : String) (at user : ℕ) (env : Env) (w w' : World)
    → reset_in_transaction s raw hash at env w ≡ (ok user, w')
    → (t : AuthToken) × (usable env w raw at ≡ some t)
      × (t.user_id ≡ user)
      × IsReplaced user hash at w w'
      × (w'.db.auth_tokens ≡ spent env raw at w.db.auth_tokens)
reset_in_transaction-ok s raw hash at user env w w' e =
    let (t, w₁, w₂, taken, owner, replaced, left) =
      reset_in_transaction-uses s raw hash at user env w w' e in
    let (found, stored, used, w₁-eq) = consume_token-ok raw at env _ w₁ t taken in
    let ((users, tokens), kept) =
      replace_password-ok s password_reset_event t.user_id hash at env w₁ w₂ replaced in
    (
      found,
      stored,
      sym (ap (λ x. x.user_id) used) ∙ owner,
      (
        rw (← owner) (
            ap (λ d. d.users) left
            ∙ users
            ∙ ap (λ x. update_where (has_id t.user_id) (with_password hash at) x.db.users) w₁-eq),
        rw (← owner) (
            ap (λ d. d.refresh_tokens) left
            ∙ tokens
            ∙ ap (λ x. revoke_where (λ r. r.user_id == t.user_id) at x.db.refresh_tokens) w₁-eq),
      ),
      ap (λ d. d.auth_tokens) left ∙ kept ∙ ap (λ x. x.db.auth_tokens) w₁-eq,
    )

-- What ResetPassword needs of its answers when it succeeds with a unit of work.
reset_password-writes :
    (s : Service) (raw new : String) (env : Env) (w w' : World)
    → s.unit_of_work ≡ true
    → reset_password s raw new env w ≡ (ok tt, w')
    → (hash : String) × (user : ℕ) × (w₁ : World) × (s.password.hash new w.calls ≡ some hash)
      × (min_password_length ≤ len new)
      × (len new ≤ max_password_length)
      × (reset_in_transaction s raw hash
            (env.clock (w.calls + 1))
            env
            (record w { calls = w.calls + 2 })
          ≡ (ok user, w₁))
      × (w'.db ≡ w₁.db)
unfolding reset_password
reset_password-writes s raw new env w w' atomic e =
    elim (Option-cases (s.password.hash new w.calls)) [
      | inl lost ↦ absurd (ground arith)
      | inr (hash, hashed) ↦
          let done =
            reset_in_transaction s raw hash (env.clock (w.calls + 1)) env
              (record w { calls = w.calls + 2 }) in
          elim (Result-cases done.0) [
            | inr (e', failed) ↦ absurd (ground arith)
            | inl (user, written) ↦
                (hash, user, done.1, hashed, ground arith, ground arith, ground arith, ground arith)
          ]
    ]

-- With a unit of work, a reset that succeeds has used a stored reset token that was neither used nor
-- expired, for a new password of an allowed length. Afterwards that token is used, the account it
-- was issued for has the new hash, every refresh token of its user is revoked, and no other account
-- is changed.
pub reset_password-ok :
    (s : Service) (raw new : String) (env : Env) (w w' : World)
    → s.unit_of_work ≡ true
    → reset_password s raw new env w ≡ (ok tt, w')
    → (t : AuthToken) × (hash : String) × (usable env w raw (env.clock (w.calls + 1)) ≡ some t)
      × (s.password.hash new w.calls ≡ some hash)
      × (min_password_length ≤ len new)
      × (len new ≤ max_password_length)
      × IsReplaced t.user_id hash (env.clock (w.calls + 1)) w w'
      × (w'.db.auth_tokens ≡ spent env raw (env.clock (w.calls + 1)) w.db.auth_tokens)
      × (count_where (λ r. r.user_id == t.user_id && is_live r) w'.db.refresh_tokens ≡ 0)
reset_password-ok s raw new env w w' atomic e =
    let (hash, user, w₁, hashed, enough, bounded, written, left) =
      reset_password-writes s raw new env w w' atomic e in
    let (t, stored, owner, (users, tokens), used) =
      reset_in_transaction-ok s raw hash _ user env _ w₁ written in
    let tokens' = ap (λ d. d.refresh_tokens) left ∙ tokens in
    (
      t,
      hash,
      stored,
      hashed,
      enough,
      bounded,
      (rw owner (ap (λ d. d.users) left ∙ users), rw owner tokens'),
      ap (λ d. d.auth_tokens) left ∙ used,
      rw owner (
          rw tokens' (
            count_where-update_where_zero (λ r. r.user_id == user && is_live r)
              (λ r. r.user_id == user && is_live r) (revoke (env.clock (w.calls + 1)))
              (λ r. ground arith) w.db.refresh_tokens)),
    )

-- With a unit of work, a reset token works once: after a reset that succeeds, no reset with the same
-- token succeeds, if the clock does not run backwards.
pub reset_password_twice :
    (s : Service) (raw new again : String) (env : Env) (w w' w'' : World)
    → s.unit_of_work ≡ true
    → env.clock (w.calls + 1) ≤ env.clock (w'.calls + 1)
    → reset_password s raw new env w ≡ (ok tt, w')
    → reset_password s raw again env w' ≢ (ok tt, w'')
reset_password_twice s raw new again env w w' w'' atomic forwards first second =
    let (_, _, _, _, _, _, _, used, _) = reset_password-ok s raw new env w w' atomic first in
    let (t, _, stored, _, _, _, _, _, _) = reset_password-ok s raw again env w' w'' atomic second in
    let gone : usable env w' raw (env.clock (w'.calls + 1)) ≡ none = rw used (
      find-consumed password_reset (env.sha256_hex (trim_space raw)) _ _ w.db.auth_tokens
        forwards) in
    absurd (cc)

reset_in_transaction-err :
    (s : Service) (raw hash : String) (at : ℕ) (env : Env) (w : World) (e : Error)
    → (reset_in_transaction s raw hash at env w).0 ≡ err e
    → (reset_in_transaction s raw hash at env w).1.db ≡ w.db
unfolding reset_in_transaction
reset_in_transaction-err s raw hash at env w e h = ground arith

-- With a unit of work, a reset that fails changes no account, no session and no token.
pub reset_password-err :
    (s : Service) (raw new : String) (env : Env) (w w' : World) (e : Error)
    → s.unit_of_work ≡ true
    → reset_password s raw new env w ≡ (err e, w')
    → (w'.db.users ≡ w.db.users)
      × (w'.db.refresh_tokens ≡ w.db.refresh_tokens)
      × (w'.db.auth_tokens ≡ w.db.auth_tokens)
unfolding reset_password
reset_password-err s raw new env w w' e atomic h =
    let undone = λ (hash : String).
      reset_in_transaction-err s raw hash (env.clock (w.calls + 1)) env
        (record w { calls = w.calls + 2 }) in
    let recorded =
      record_audit-eq s.audit_recorder
        (failed_event "auth.password.reset_failed" "Auth password reset failed.") env in
    (
      grind (arith, undone, recorded),
      grind (arith, undone, recorded),
      grind (arith, undone, recorded),
    )
