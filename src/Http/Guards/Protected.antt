-- ===== src/Http/Guards/Protected.antt =====
-- The operations that ask for a permission: the handlers of internal/http/handlers/users.go and
-- roles.go, create-project of projects.go, impersonate of auth.go and system_events.go.
use mathlib.Core.Path.{subst}
use wow_dashboard_api.Prelude.{
  ℕ, ◌≡◌, refl, ap, sym, ◌∙◌, inl, inr, arith, String, Bool, false, not, ◌&&◌, Option, none, some,
  find_where,
}
use wow_dashboard_api.Store.Schema.{User, Db}
use wow_dashboard_api.Store.Effect.{Env, World}
use wow_dashboard_api.Rbac.{has_permission, permission_all}
use wow_dashboard_api.Auth.Users.{has_id, permissions_of}
use wow_dashboard_api.Auth.Service.{Service, PublicUser, is_disabled}
use wow_dashboard_api.Users.Service.{UserService}
use wow_dashboard_api.Roles.Service.{RoleService}
use wow_dashboard_api.Projects.Operations.{ProjectService}
use wow_dashboard_api.Lists.Pagination.{Params, ℤ}
use wow_dashboard_api.Http.Errors.{ApiError, for_context}
use wow_dashboard_api.Http.Endpoint.{Endpoint, reply, refusal, Response-cases, pure, ◌>>=◌}
use wow_dashboard_api.Http.Authorize.{
  authenticate, require_permission, authorize_with_permission, permission_missing,
}
use wow_dashboard_api.Http.Guards.{header_owner, IsRefused, authenticate-reads, authenticate-ok}
use wow_dashboard_api.Http.Users.{
  UserPatch, get_users_handler, get_user_handler, patch_user_handler,
}
use wow_dashboard_api.Http.Roles.{
  RoleDraft, RolePatch, list_roles_handler, get_role_handler, create_role_handler,
  update_role_handler, delete_role_handler, list_permissions_handler,
}
use wow_dashboard_api.Http.Projects.{ProjectDraft, post_project_handler}
use wow_dashboard_api.Http.Cursors.{Formats}
use wow_dashboard_api.Http.SystemEvents.{list_system_events_handler}
use wow_dashboard_api.Http.Auth.{AuthApi, impersonate_handler}

-- The services behind the handlers.
pub record Services : Type 0 where
  pub auth : AuthApi
  pub users : UserService
  pub roles : RoleService
  pub projects : ProjectService
  pub formats : Formats
  pub parse_rfc3339 : String → Option ℕ

-- The requests of the operations, without their header.
pub data ProtectedRequest : Type 0 where
  get_users : Params → String → String → ProtectedRequest
  get_user : String → ProtectedRequest
  patch_user : String → UserPatch → ProtectedRequest
  list_roles list_permissions : ProtectedRequest
  get_role delete_role : String → ProtectedRequest
  create_role : RoleDraft → ProtectedRequest
  update_role : String → RolePatch → ProtectedRequest
  create_project : ProjectDraft → ProtectedRequest
  impersonate : String → ProtectedRequest
  get_system_events : ℤ → String → String → String → String → ProtectedRequest

-- The permission that each asks for, as its description says.
abbrev pub required : ProtectedRequest → String
required (get_users params role status) = "users:read"
required (get_user id) = "users:read"
required (patch_user id body) = "users:manage"
required list_roles = "roles:read"
required list_permissions = "roles:read"
required (get_role id) = "roles:read"
required (delete_role id) = "roles:manage"
required (create_role body) = "roles:manage"
required (update_role id body) = "roles:manage"
required (create_project body) = "projects:create"
required (impersonate target) = permission_all
required (get_system_events limit event_type after before cursor) = "system_events:read"

-- The reply without its body.
abbrev done : {A : Type 0} → Endpoint A → Endpoint (Unit {0})
done m = m >>= λ _. pure tt

abbrev pub handle : Services → String → ProtectedRequest → Endpoint (Unit {0})
unfolding get_users_handler get_user_handler patch_user_handler list_roles_handler
    list_permissions_handler get_role_handler delete_role_handler create_role_handler
    update_role_handler post_project_handler impersonate_handler list_system_events_handler
handle s header (get_users params role status) =
    done (get_users_handler s.auth.service header params role status)
handle s header (get_user id) = done (get_user_handler s.auth.service header id)
handle s header (patch_user id body) =
    done (patch_user_handler s.auth.service s.users header id body)
handle s header list_roles = done (list_roles_handler s.auth.service header)
handle s header list_permissions = done (list_permissions_handler s.auth.service header)
handle s header (get_role id) = done (get_role_handler s.auth.service header id)
handle s header (delete_role id) = done (delete_role_handler s.auth.service s.roles header id)
handle s header (create_role body) = done (create_role_handler s.auth.service s.roles header body)
handle s header (update_role id body) =
    done (update_role_handler s.auth.service s.roles header id body)
handle s header (create_project body) =
    done (post_project_handler s.auth.service s.projects header body)
handle s header (impersonate target) = done (impersonate_handler s.auth header target)
handle s header (get_system_events limit event_type after before cursor) = done (
    list_system_events_handler s.auth.service s.formats s.parse_rfc3339 header limit event_type
      after before cursor)

-- Whether the account is stored, not disabled, and has the permission.
abbrev pub user_has : String → Db → ℕ → Option User → Bool
unfolding has_permission
user_has perm d id none = false
user_has perm d id (some u) = not (is_disabled u) && has_permission (permissions_of id d) perm

abbrev pub owner_has : String → Db → Option ℕ → Bool
unfolding has_permission
owner_has perm d none = false
owner_has perm d (some id) = user_has perm d id (find_where (has_id id) d.users)

-- Whether the request's token is one of an account that has the permission.
unfoldable pub is_permitted : Service → String → String → Env → World → Bool
unfolding has_permission
is_permitted s header perm env w = owner_has perm w.db (header_owner s header env w.calls)

authorized :
    (s : Service) (header perm : String) (env : Env) (w : World) (user : PublicUser)
    → (authenticate s header env w).0 ≡ reply user
    → has_permission user.permissions perm ≡ is_permitted s header perm env w
unfolding is_permitted
authorized s header perm env w user e =
    let (id, u, owner, profile, impersonated) = authenticate-ok s header env w user e in
    let (stored, enabled, is_id, mfa, roles, permissions) = profile in
    ap (λ p. has_permission p perm) permissions
    ∙ sym (
        ap (owner_has perm w.db) owner
        ∙ ap (user_has perm w.db id) stored
        ∙ ap (λ b. not b && has_permission (permissions_of id w.db) perm) enabled)

-- The guard lets nobody through who lacks the permission.
authorize_with_permission-refuses :
    (s : Service) (header perm : String) (env : Env) (w : World)
    → is_permitted s header perm env w ≡ false
    → (e : ApiError) × (w' : World) × (authorize_with_permission s header perm env w
        ≡ (refusal e, w'))
      × (w'.db ≡ w.db)
unfolding authorize_with_permission require_permission
authorize_with_permission-refuses s header perm env w lacking =
    let w' : World = (authenticate s header env w).1 in
    let reads : w'.db ≡ w.db = authenticate-reads s header env w in
    elim (Response-cases (authenticate s header env w).0) [
      | inr (e, failed) ↦ (e, w', ground arith, reads)
      | inl (user, given) ↦
          let powerless : has_permission user.permissions perm ≡ false =
            authorized s header perm env w user given ∙ lacking in
          (for_context env permission_missing, w', ground arith, reads)
    ]

-- Every operation starts with its guard.
handle-stops :
    (s : Services) (header : String) (r : ProtectedRequest) (env : Env) (w w' : World)
    (e : ApiError)
    → authorize_with_permission s.auth.service header (required r) env w ≡ (refusal e, w')
    → handle s header r env w ≡ (refusal e, w')
unfolding handle get_users_handler get_user_handler patch_user_handler list_roles_handler
    list_permissions_handler get_role_handler delete_role_handler create_role_handler
    update_role_handler post_project_handler impersonate_handler list_system_events_handler
handle-stops s header (get_users params role status) env w w' e stops = ground arith
handle-stops s header (get_user id) env w w' e stops = ground arith
handle-stops s header (patch_user id body) env w w' e stops = ground arith
handle-stops s header list_roles env w w' e stops = ground arith
handle-stops s header list_permissions env w w' e stops = ground arith
handle-stops s header (get_role id) env w w' e stops = ground arith
handle-stops s header (delete_role id) env w w' e stops = ground arith
handle-stops s header (create_role body) env w w' e stops = ground arith
handle-stops s header (update_role id body) env w w' e stops = ground arith
handle-stops s header (create_project body) env w w' e stops = ground arith
handle-stops s header (impersonate target) env w w' e stops = ground arith
handle-stops s header (get_system_events limit event_type after before cursor) env w w' e stops =
    ground arith

-- A request without the permission that its operation asks for, because it has no valid token, or
-- its account is missing or disabled or lacks the permission, is refused, and the database stays as
-- it was.
pub handle-IsRefused :
    (s : Services) (header : String) (r : ProtectedRequest) (env : Env) (w : World)
    → is_permitted s.auth.service header (required r) env w ≡ false
    → IsRefused w (handle s header r env w)
handle-IsRefused s header r env w lacking =
    let (e, w', stops, kept) =
      authorize_with_permission-refuses s.auth.service header (required r) env w lacking in
    subst (IsRefused w) (sym (handle-stops s header r env w w' e stops)) ((e, refl), kept)
