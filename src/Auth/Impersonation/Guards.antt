-- ===== src/Auth/Impersonation/Guards.antt =====
-- What impersonation and the current account are guarded by.
use wow_dashboard_api.Prelude.{
  ℕ, ◌+◌, ◌≡◌, ◌≢◌, String, false, some, arith, find_where, eq_iff, inl, inr, Option-cases,
}
use wow_dashboard_api.Prelude.Text.{trim_space, is_empty}
use wow_dashboard_api.Store.Schema.{User}
use wow_dashboard_api.Store.Effect.{Error, Env, World, ok, err, impersonation_active}
use wow_dashboard_api.Auth.Users.{has_id, role_names, permissions_of}
use wow_dashboard_api.Auth.Audit.{record_audit-eq}
use wow_dashboard_api.Auth.Service.{Service, Claims, PublicUser, Session, is_disabled}
use wow_dashboard_api.Auth.Sessions.{refresh}
use wow_dashboard_api.Auth.Impersonation.{
  impersonate, impersonate_found, is_admin, refresh_session, stop_impersonation,
}

impersonate_found-ok :
    (s : Service) (actor : PublicUser) (id : ℕ) (target : User) (env : Env) (w w' : World)
    (session : Session)
    → impersonate_found s actor id target env w ≡ (ok session, w')
    → (is_disabled target ≡ false)
      × (is_admin (role_names id w.db) (permissions_of id w.db) ≡ false)
      × (session.refresh_token ≡ "")
      × (session.user.impersonator_id ≡ actor.id)
      × (session.user.permissions ≡ permissions_of id w.db)
      × (w'.db.users ≡ w.db.users)
      × (w'.db.refresh_tokens ≡ w.db.refresh_tokens)
unfolding impersonate_found
impersonate_found-ok s actor id target env w w' session e =
    let recorded = record_audit-eq s.audit_recorder in
    (
      grind arith,
      grind arith,
      grind (arith, recorded),
      grind (arith, recorded),
      grind (arith, recorded),
      grind (arith, recorded),
      grind (arith, recorded),
    )

-- How an impersonation goes on that finds its target.
impersonate-finds :
    (s : Service) (actor : PublicUser) (target_id : String) (env : Env) (w w' : World)
    (session : Session) (id : ℕ) (target : User)
    → env.parse_uuid (trim_space target_id) ≡ some id
    → find_where (has_id id) w.db.users ≡ some target
    → impersonate s (some actor) target_id env w ≡ (ok session, w')
    → (env.uuid_string id ≢ actor.id)
      × (impersonate_found s actor id target env (record w { calls = w.calls + 1 })
          ≡ (ok session, w'))
unfolding impersonate
impersonate-finds s actor target_id env w w' session id target parsed found e =
    (λ same. let own = (eq_iff (env.uuid_string id) actor.id).1 same in ground arith, ground arith)

-- An impersonation succeeds only for a stored account other than the actor's that is not disabled and
-- whose roles and permissions are not an administrator's. The session has the target's permissions
-- and no refresh token, names the actor, and leaves all accounts and refresh tokens as they were.
pub impersonate-ok :
    (s : Service) (actor : PublicUser) (target_id : String) (env : Env) (w w' : World)
    (session : Session)
    → impersonate s (some actor) target_id env w ≡ (ok session, w')
    → (id : ℕ) × (target : User) × (env.parse_uuid (trim_space target_id) ≡ some id)
      × (find_where (has_id id) w.db.users ≡ some target)
      × (env.uuid_string id ≢ actor.id)
      × (is_disabled target ≡ false)
      × (is_admin (role_names id w.db) (permissions_of id w.db) ≡ false)
      × (session.refresh_token ≡ "")
      × (session.user.impersonator_id ≡ actor.id)
      × (session.user.permissions ≡ permissions_of id w.db)
      × (w'.db.users ≡ w.db.users)
      × (w'.db.refresh_tokens ≡ w.db.refresh_tokens)
unfolding impersonate
impersonate-ok s actor target_id env w w' session e =
    elim (Option-cases (env.parse_uuid (trim_space target_id))) [
      | inl no_id ↦ absurd (ground arith)
      | inr (id, parsed) ↦ elim (Option-cases (find_where (has_id id) w.db.users)) [
        | inl no_user ↦ absurd (ground arith)
        | inr (target, found) ↦
            let (other, granted) =
              impersonate-finds s actor target_id env w w' session id target parsed found e in
            let (enabled, no_admin, no_token, acting, permissions, users, tokens) =
              impersonate_found-ok s actor id target env _ w' session granted in
            (
              id, target, parsed, found, other, enabled, no_admin, no_token, acting, permissions,
              users, tokens,
            )
      ]
    ]

-- With an access token that names an actor, expired or not, a session is never refreshed, and
-- nothing is called or changed.
pub refresh_session_impersonating :
    (s : Service) (raw_current raw_refresh : String) (claims : Claims) (env : Env) (w : World)
    → is_empty (trim_space raw_current) ≡ false
    → s.token_manager.parse_claims_allow_expired raw_current ≡ some claims
    → is_empty (trim_space claims.act) ≡ false
    → refresh_session s raw_current raw_refresh env w ≡ (err impersonation_active, w)
unfolding refresh_session
refresh_session_impersonating s raw_current raw_refresh claims env w given parsed acting =
    ground arith

-- Leaving an impersonation answers as the refresh does. If the refresh fails, no event is recorded;
-- if it succeeds, the accounts and the tokens are as it leaves them.
pub stop_impersonation-refreshes :
    (s : Service) (raw_current raw_refresh : String) (env : Env) (w : World)
    → ((stop_impersonation s raw_current raw_refresh env w).0 ≡ (refresh s raw_refresh env w).0)
      × ((stop_impersonation s raw_current raw_refresh env w).1.db.users
          ≡ (refresh s raw_refresh env w).1.db.users)
      × ((stop_impersonation s raw_current raw_refresh env w).1.db.refresh_tokens
          ≡ (refresh s raw_refresh env w).1.db.refresh_tokens)
      × ((e : Error)
          → (refresh s raw_refresh env w).0 ≡ err e
          → stop_impersonation s raw_current raw_refresh env w ≡ refresh s raw_refresh env w)
unfolding stop_impersonation
stop_impersonation-refreshes s raw_current raw_refresh env w =
    let recorded = record_audit-eq s.audit_recorder in
    (
      grind (arith, recorded),
      grind (arith, recorded),
      grind (arith, recorded),
      λ e failed. grind arith,
    )
