-- ===== src/Http/Roles.antt =====
-- The handlers of roles and of the catalog of permissions: internal/http/handlers/roles.go.
use wow_dashboard_api.Prelude.{ℕ, String, Bool, Option, List, map}
use wow_dashboard_api.Store.Effect.{Env}
use wow_dashboard_api.Roles.Store.{RoleDetail}
use wow_dashboard_api.Roles.Service.{
  RoleService, list_roles, get_role, create_role, update_role, delete_role,
}
use wow_dashboard_api.Rbac.{catalog}
use wow_dashboard_api.Auth.Service.{Service}
use wow_dashboard_api.Http.Errors.{map_roles_error}
use wow_dashboard_api.Http.Endpoint.{Endpoint, pure, answer, call, as_impersonator, ◌>>=◌, ◌>>◌}
use wow_dashboard_api.Http.Authorize.{authorize_with_permission}

pub record RoleDraft : Type 0 where
  pub name : String
  pub description : String
  pub permissions : List String

pub record RolePatch : Type 0 where
  pub name : Option String
  pub description : Option String
  pub permissions : Option (List String)

pub record RoleBody : Type 0 where
  pub id : String
  pub name : String
  pub description : String
  pub is_system : Bool
  pub permissions : List String
  pub user_count : ℕ
  pub created_at : ℕ
  pub updated_at : ℕ

abbrev pub role_response : Env → RoleDetail → RoleBody
role_response env r = record {
  id = env.uuid_string r.role.id;
  name = r.role.name;
  description = r.role.description;
  is_system = r.role.is_system;
  permissions = r.permissions;
  user_count = r.user_count;
  created_at = r.role.created_at;
  updated_at = r.role.updated_at;
}

unfoldable pub list_roles_handler : Service → String → Endpoint (List RoleBody)
unfolding authorize_with_permission list_roles map_roles_error
list_roles_handler s header = do
  authorize_with_permission s header "roles:read"
  roles ← call map_roles_error list_roles
  answer (λ env. map (role_response env) roles)

unfoldable pub get_role_handler : Service → String → String → Endpoint RoleBody
unfolding authorize_with_permission get_role map_roles_error
get_role_handler s header id = do
  authorize_with_permission s header "roles:read"
  role ← call map_roles_error (get_role id)
  answer (λ env. role_response env role)

unfoldable pub create_role_handler : Service → RoleService → String → RoleDraft → Endpoint RoleBody
unfolding authorize_with_permission create_role map_roles_error
create_role_handler s roles header body = do
  actor ← authorize_with_permission s header "roles:manage"
  role ← call map_roles_error (
      as_impersonator actor.impersonator_id (
        create_role roles record {
          actor_user_id = actor.id;
          name = body.name;
          description = body.description;
          permissions = body.permissions;
        }))
  answer (λ env. role_response env role)

unfoldable pub update_role_handler :
    Service → RoleService → String → String → RolePatch → Endpoint RoleBody
unfolding authorize_with_permission update_role map_roles_error
update_role_handler s roles header id body = do
  actor ← authorize_with_permission s header "roles:manage"
  role ← call map_roles_error (
      as_impersonator actor.impersonator_id (
        update_role roles record {
          actor_user_id = actor.id;
          role_id = id;
          name = body.name;
          description = body.description;
          permissions = body.permissions;
        }))
  answer (λ env. role_response env role)

unfoldable pub delete_role_handler : Service → RoleService → String → String → Endpoint (Unit {0})
unfolding authorize_with_permission delete_role map_roles_error
delete_role_handler s roles header id = do
  actor ← authorize_with_permission s header "roles:manage"
  call map_roles_error (as_impersonator actor.impersonator_id (delete_role roles actor.id id))

unfoldable pub list_permissions_handler : Service → String → Endpoint (List String)
unfolding authorize_with_permission
list_permissions_handler s header = do authorize_with_permission s header "roles:read"; pure catalog
