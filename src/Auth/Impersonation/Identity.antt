-- ===== src/Auth/Impersonation/Identity.antt =====
-- Whom an access token stands for: CurrentUser of internal/auth/service/service.go.
use wow_dashboard_api.Prelude.{
  ℕ, ◌+◌, ◌≡◌, refl, ap, sym, ◌∙◌, inl, inr, arith, String, false, Option, none, some, find_where,
  Option-cases,
}
use wow_dashboard_api.Prelude.Text.{trim_space, is_empty}
use wow_dashboard_api.Store.Schema.{User}
use wow_dashboard_api.Store.Effect.{Env, World, ok}
use wow_dashboard_api.Auth.Users.{
  has_id, get_user_by_id, get_user_roles, get_user_permissions, role_names, permissions_of,
}
use wow_dashboard_api.Auth.Service.{Service, PublicUser, Claims, is_disabled}
use wow_dashboard_api.Auth.Impersonation.{current_user, with_actor, profile}

-- The claims' account.
abbrev pub claimed : Env → Option Claims → Option ℕ
claimed env none = none
claimed env (some claims) = env.parse_uuid claims.subject

-- The account that the token names, for the call of this number.
abbrev pub token_owner : Service → String → Env → ℕ → Option ℕ
token_owner s raw env n = claimed env (s.token_manager.verify_access_token raw n)

with_actor-reads :
    (claims : Claims) (user : PublicUser) (env : Env) (w : World)
    → (with_actor claims user env w).1.db ≡ w.db
unfolding with_actor get_user_by_id
with_actor-reads claims user env w = ground arith

-- CurrentUser only reads.
pub current_user-reads :
    (s : Service) (raw : String) (env : Env) (w : World) → (current_user s raw env w).1.db ≡ w.db
unfolding current_user get_user_by_id get_user_roles get_user_permissions
current_user-reads s raw env w = grind (arith, with_actor-reads)

-- What an answer of CurrentUser says of its account.
abbrev pub IsProfileOf : Env → World → ℕ → User → PublicUser → Type 0
IsProfileOf env w id u user =
    (find_where (has_id id) w.db.users ≡ some u)
    × (is_disabled u ≡ false)
    × (user.id ≡ env.uuid_string u.id)
    × (user.mfa_enabled ≡ u.mfa_enabled)
    × (user.roles ≡ role_names id w.db)
    × (user.permissions ≡ permissions_of id w.db)

with_actor-ok :
    (claims : Claims) (user found : PublicUser) (env : Env) (w w' : World)
    → with_actor claims user env w ≡ (ok found, w')
    → (found.id ≡ user.id)
      × (found.mfa_enabled ≡ user.mfa_enabled)
      × (found.roles ≡ user.roles)
      × (found.permissions ≡ user.permissions)
unfolding with_actor get_user_by_id
with_actor-ok claims user found env w w' e =
    (ground arith, ground arith, ground arith, ground arith)

with_actor-impersonator :
    (claims : Claims) (user found : PublicUser) (env : Env) (w w' : World)
    → user.impersonator_id ≡ ""
    → with_actor claims user env w ≡ (ok found, w')
    → is_empty found.impersonator_id ≡ is_empty (trim_space claims.act)
unfolding with_actor get_user_by_id
with_actor-impersonator claims user found env w w' plain e = ground arith

-- The claims of the access token of a call.
abbrev pub claims_of : Service → String → ℕ → Option Claims
claims_of s raw n = s.token_manager.verify_access_token raw n

abbrev pub act_of : Option Claims → String
act_of none = ""
act_of (some claims) = claims.act

-- CurrentUser answers the account that the token names, which is stored and not disabled, with its
-- roles and permissions, and with an impersonator exactly if the token names one.
pub current_user-ok :
    (s : Service) (raw : String) (env : Env) (w w' : World) (user : PublicUser)
    → current_user s raw env w ≡ (ok user, w')
    → (id : ℕ) × (u : User) × (token_owner s raw env w.calls ≡ some id)
      × IsProfileOf env w id u user
      × (is_empty user.impersonator_id ≡ is_empty (trim_space (act_of (claims_of s raw w.calls))))
      × (w'.db ≡ w.db)
unfolding current_user get_user_by_id get_user_roles get_user_permissions
current_user-ok s raw env w w' user e =
    let reads : w'.db ≡ w.db = sym (ap (λ r. r.1.db) e) ∙ current_user-reads s raw env w in
    elim (Option-cases (s.token_manager.verify_access_token raw w.calls)) [
      | inl refused ↦ absurd (ground arith)
      | inr (claims, verified) ↦ elim (Option-cases (env.parse_uuid claims.subject)) [
        | inl no_owner ↦ absurd (ground arith)
        | inr (id, found) ↦ elim (Option-cases (find_where (has_id id) w.db.users)) [
          | inl missing ↦ absurd (ground arith)
          | inr (u, stored) ↦
              let public = profile env u (role_names id w.db) (permissions_of id w.db) in
              let v : World = record w { calls = w.calls + 4 } in
              let enabled : is_disabled u ≡ false = ground arith in
              let ends : with_actor claims public env v ≡ (ok user, w') = ground arith in
              let same = with_actor-ok claims public user env v w' ends in
              let impersonated = with_actor-impersonator claims public user env v w' refl ends in
              (
                id,
                u,
                rw (verified) found,
                (stored, enabled, same.0, same.1, same.2, same.3),
                rw verified impersonated,
                reads,
              )
        ]
      ]
    ]
