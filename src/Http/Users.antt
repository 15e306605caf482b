-- ===== src/Http/Users.antt =====
-- The handlers of accounts: internal/http/handlers/users.go.
use wow_dashboard_api.Prelude.{ℕ, String, Bool, Option, List, map, is_some}
use wow_dashboard_api.Store.Effect.{Env}
use wow_dashboard_api.Users.Store.{UserDetail}
use wow_dashboard_api.Users.Service.{UserService, UpdateUserInput, get_user, update_user}
use wow_dashboard_api.Lists.Pagination.{Params}
use wow_dashboard_api.Lists.Queries.{Page, list_users}
use wow_dashboard_api.Auth.Service.{Service, PublicUser, status_text}
use wow_dashboard_api.Http.Errors.{map_users_error}
use wow_dashboard_api.Http.Endpoint.{Endpoint, answer, call, as_impersonator, ◌>>=◌, ◌>>◌}
use wow_dashboard_api.Http.Authorize.{authorize_with_permission}

-- patch-user's body
pub record UserPatch : Type 0 where
  pub status : Option String
  pub role_ids : Option (List String)
  pub avatar_url : Option String
  pub phone : Option String
  pub job_title : Option String
  pub company : Option String

pub record UsersListItem : Type 0 where
  pub id : String
  pub email : String
  pub display_name : String
  pub status : String
  pub roles : List String
  pub avatar_url : String
  pub phone : String
  pub job_title : String
  pub company : String
  pub email_verified : Bool
  pub last_login_at : Option ℕ
  pub created_at : ℕ
  pub updated_at : ℕ

abbrev pub users_list_item : Env → UserDetail → UsersListItem
users_list_item env u = record {
  id = env.uuid_string u.user.id;
  email = u.user.email;
  display_name = u.user.display_name;
  status = status_text u.user.status;
  roles = u.roles;
  avatar_url = u.user.avatar_url;
  phone = u.user.phone;
  job_title = u.user.job_title;
  company = u.user.company;
  email_verified = is_some u.user.email_verified_at;
  last_login_at = u.user.last_login_at;
  created_at = u.user.created_at;
  updated_at = u.user.updated_at;
}

abbrev pub users_list_response : Page UserDetail → Env → Page UsersListItem
users_list_response found env = record {
  rows = map (users_list_item env) found.rows;
  page = found.page;
  page_size = found.page_size;
  total = found.total;
}

unfoldable pub get_users_handler :
    Service → String → Params → String → String → Endpoint (Page UsersListItem)
unfolding authorize_with_permission list_users map_users_error
get_users_handler s header params role status = do
  authorize_with_permission s header "users:read"
  found ← call map_users_error (list_users params role status)
  answer (users_list_response found)

unfoldable pub get_user_handler : Service → String → String → Endpoint UsersListItem
unfolding authorize_with_permission get_user map_users_error
get_user_handler s header id = do
  authorize_with_permission s header "users:read"
  user ← call map_users_error (get_user id)
  answer (λ env. users_list_item env user)

abbrev pub update_user_input : PublicUser → String → UserPatch → UpdateUserInput
update_user_input actor id body = record {
  actor_user_id = actor.id;
  actor_roles = actor.roles;
  actor_permissions = actor.permissions;
  target_user_id = id;
  status = body.status;
  role_ids = body.role_ids;
  avatar_url = body.avatar_url;
  phone = body.phone;
  job_title = body.job_title;
  company = body.company;
}

unfoldable pub patch_user_handler :
    Service → UserService → String → String → UserPatch → Endpoint UsersListItem
unfolding authorize_with_permission update_user map_users_error
patch_user_handler s users header id body = do
  actor ← authorize_with_permission s header "users:manage"
  user ←
      call map_users_error (
        as_impersonator actor.impersonator_id (update_user users (update_user_input actor id body)))
  answer (λ env. users_list_item env user)
