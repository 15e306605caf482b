-- ===== src/Http/Guards/Admins.antt =====
-- From the token to the tables: patch-user of internal/http/handlers/users.go with CurrentUser and
-- UpdateUser behind it.
use mathlib.Core.Path.{subst}
use wow_dashboard_api.Prelude.{
  ℕ, ◌≡◌, refl, ap, sym, ◌∙◌, inl, inr, arith, String, false, some, find_where,
}
use wow_dashboard_api.Store.Schema.{Role}
use wow_dashboard_api.Store.Effect.{Env, World}
use wow_dashboard_api.Auth.Users.{role_names, permissions_of}
use wow_dashboard_api.Auth.Service.{Service, PublicUser}
use wow_dashboard_api.Roles.Store.{has_role_id}
use wow_dashboard_api.Users.Store.{UserDetail}
use wow_dashboard_api.Users.Service.{
  UserService, update_user, can_grant_system_admin, system_admin_role_id,
}
use wow_dashboard_api.Users.Guards.Safety.{AdminsKept, update_user-AdminsKept}
use wow_dashboard_api.Http.Errors.{map_users_error}
use wow_dashboard_api.Http.Endpoint.{
  Endpoint, reply, Response-cases, call, answer, as_impersonator, ◌>>=◌,
}
use wow_dashboard_api.Http.Authorize.{authenticate, require_permission, authorize_with_permission}
use wow_dashboard_api.Http.Users.{UserPatch, update_user_input, users_list_item, patch_user_handler}
use wow_dashboard_api.Http.Guards.{
  header_owner, bind-cases, call-world, as_impersonator-holds, authenticate-reads, authenticate-ok,
}

authorize_with_permission-reads :
    (s : Service) (header perm : String) (env : Env) (w : World)
    → (authorize_with_permission s header perm env w).1.db ≡ w.db
unfolding authorize_with_permission require_permission
authorize_with_permission-reads s header perm env w =
    let reads = authenticate-reads s header env w in
    elim (Response-cases (authenticate s header env w).0) [
      | inr (e, failed) ↦ ground arith
      | inl (user, given) ↦ ground arith
    ]

authorize_with_permission-reply :
    (s : Service) (header perm : String) (env : Env) (w : World) (user : PublicUser)
    → (authorize_with_permission s header perm env w).0 ≡ reply user
    → (authenticate s header env w).0 ≡ reply user
unfolding authorize_with_permission require_permission
authorize_with_permission-reply s header perm env w user e =
    elim (Response-cases (authenticate s header env w).0) [
      | inr (e', failed) ↦ absurd (ground arith)
      | inl (found, given) ↦ ground arith
    ]

-- What the handler does once the actor is known.
apply_patch : UserService → String → UserPatch → PublicUser → Endpoint UserDetail
apply_patch users id body actor =
    call map_users_error
      (as_impersonator actor.impersonator_id (update_user users (update_user_input actor id body)))

apply_patch-AdminsKept :
    (users : UserService) (id : String) (body : UserPatch) (actor : PublicUser) (env : Env)
    (w : World) (r : Role)
    → find_where (has_role_id system_admin_role_id) w.db.roles ≡ some r
    → r.name ≡ "admin"
    → can_grant_system_admin actor.roles actor.permissions ≡ false
    → AdminsKept w.db (apply_patch users id body actor env w).1.db
unfolding apply_patch
apply_patch-AdminsKept users id body actor env w r seeded name powerless =
    subst (λ w'. AdminsKept w.db w'.db)
      (sym (
        call-world map_users_error
          (as_impersonator actor.impersonator_id
            (update_user users (update_user_input actor id body)))
          env w))
      (as_impersonator-holds (λ r. AdminsKept w.db r.1.db) actor.impersonator_id
        (update_user users (update_user_input actor id body)) env w
        (λ context.
          update_user-AdminsKept users (update_user_input actor id body) context w r seeded name
            powerless))

-- Where the role of administrators is named "admin", as it is seeded: a request to patch-user with
-- the token of an account whose stored roles and permissions are not an administrator's changes,
-- whatever it asks for, neither who is an administrator nor the account and the roles of one.
pub patch_user_handler-AdminsKept :
    (s : Service) (users : UserService) (header id : String) (body : UserPatch) (env : Env)
    (w : World) (r : Role) (owner : ℕ)
    → find_where (has_role_id system_admin_role_id) w.db.roles ≡ some r
    → r.name ≡ "admin"
    → header_owner s header env w.calls ≡ some owner
    → can_grant_system_admin (role_names owner w.db) (permissions_of owner w.db) ≡ false
    → AdminsKept w.db (patch_user_handler s users header id body env w).1.db
unfolding patch_user_handler apply_patch
patch_user_handler-AdminsKept s users header id body env w r owner seeded name owned powerless =
    let w₁ : World = (authorize_with_permission s header "users:manage" env w).1 in
    let reads : w₁.db ≡ w.db = authorize_with_permission-reads s header "users:manage" env w in
    bind-cases (λ r. AdminsKept w.db r.1.db) (authorize_with_permission s header "users:manage")
      (λ actor.
        apply_patch users id body actor >>= λ user. answer (λ env. users_list_item env user))
      env w (λ e failed. subst (AdminsKept w.db) (sym reads) (refl, λ id admin. (refl, refl)))
      (λ actor granted.
        let given = authorize_with_permission-reply s header "users:manage" env w actor granted in
        let (number, u, named, profile, impersonated) =
          authenticate-ok s header env w actor given in
        let (stored, enabled, is_id, mfa, roles, permissions) = profile in
        let same : number ≡ owner = ground arith in
        let weak : can_grant_system_admin actor.roles actor.permissions ≡ false =
          ap (λ l. can_grant_system_admin l actor.permissions) roles
          ∙ ap (λ l. can_grant_system_admin (role_names number w.db) l) permissions
          ∙ ap (λ n. can_grant_system_admin (role_names n w.db) (permissions_of n w.db)) same
          ∙ powerless in
        let after : AdminsKept w.db (apply_patch users id body actor env w₁).1.db =
          subst (λ d. AdminsKept d (apply_patch users id body actor env w₁).1.db) reads
            (apply_patch-AdminsKept users id body actor env w₁ r
              (ap (λ d. find_where (has_role_id system_admin_role_id) d.roles) reads ∙ seeded) name
              weak) in
        bind-cases (λ r. AdminsKept w.db r.1.db) (apply_patch users id body actor)
          (λ user. answer (λ env. users_list_item env user)) env w₁ (λ _ _. after) (λ _ _. after))
