-- ===== src/Roles/Service.antt =====
-- The management of roles: internal/roles/service/service.go with its events of audit.go.
use Prim.Native.String.{len}
use wow_dashboard_api.Prelude.{
  ℕ, String, Bool, Option, none, some, List, [], ◌∷◌, ◌++◌, ◌&&◌, ltb, is_none, if◌then◌else◌,
}
use wow_dashboard_api.Prelude.Text.{trim_space, is_empty}
use wow_dashboard_api.Store.Schema.{Json, texts}
use wow_dashboard_api.Store.Effect.{
  checked, Action, Env, Error, Result, ok, err, role_not_found, not_found, system_role, role_in_use,
  invalid_input, reading, raise_if, or_else, pure, when◌then◌else◌, ◌>>=◌, ◌>>◌,
}
use wow_dashboard_api.Store.Mutation.{Event, commit}
use wow_dashboard_api.Rbac.{is_assignable, is_member}
use wow_dashboard_api.Auth.Audit.{field}
use wow_dashboard_api.Auth.Service.{now}
use wow_dashboard_api.Projects.Operations.{parse_uuid_field}
use wow_dashboard_api.Roles.Store.{
  RoleDetail, CreateRoleRow, UpdateRoleRow, list_role_rows, get_role_by_id, create_role_on_tx,
  create_role_row, update_role_on_tx, update_role_row, delete_role_row,
}

-- Whether a unit of work and a recorder of events are configured.
pub record RoleService : Type 0 where
  pub unit_of_work : Bool
  pub audit_recorder : Bool

pub record CreateRoleInput : Type 0 where
  pub actor_user_id : String
  pub name : String
  pub description : String
  pub permissions : List String

pub record UpdateRoleInput : Type 0 where
  pub actor_user_id : String
  pub role_id : String
  pub name : Option String
  pub description : Option String
  pub permissions : Option (List String)

abbrev max_role_name_length : ℕ
max_role_name_length = 50

abbrev max_role_description_length : ℕ
max_role_description_length = 280

-- A list with `omitempty`.
abbrev pub list_field : String → List String → List (String × Json)
list_field name [] = []
list_field name (value ∷ values) = (name, texts (value ∷ values)) ∷ []

abbrev pub build_role_event : String → String → String → Env → RoleDetail → Event
build_role_event event_type message actor env role = record {
  event_type = event_type;
  message = message;
  metadata =
      field "role_id" (env.uuid_string role.role.id)
      ++ (field "actor_user_id" actor
          ++ (list_field "permissions" role.permissions
              ++ (field "request_id" env.request_id ++ field "impersonator_id" env.impersonator)));
}

abbrev pub role_missing : Error → Error
role_missing role_not_found = not_found
role_missing e = e

unfoldable pub list_roles : Action (List RoleDetail)
unfolding list_role_rows
list_roles = list_role_rows

unfoldable pub get_role : String → Action RoleDetail
unfolding parse_uuid_field get_role_by_id
get_role id = do role_id ← parse_uuid_field id; or_else role_missing (get_role_by_id role_id)

unfoldable pub normalize_name : String → Result String
unfolding trim_space
normalize_name value =
    if is_empty (trim_space value)
    then err invalid_input
    else (if ltb max_role_name_length (len (trim_space value))
        then err invalid_input
        else ok (trim_space value))

unfoldable pub normalize_description : String → Result String
unfolding trim_space
normalize_description value =
    if ltb max_role_description_length (len (trim_space value))
    then err invalid_input
    else ok (trim_space value)

-- The loop of normalizePermissions: `out` is what is kept so far.
unfoldable pub normalize_onto : List String → List String → Result (List String)
unfolding trim_space is_assignable
normalize_onto out [] = ok out
normalize_onto out (raw ∷ rest) =
    let p = trim_space raw in
    let skipped = normalize_onto out rest in
    let kept = normalize_onto (out ++ p ∷ []) rest in
    if is_assignable p then (if is_member p out then skipped else kept) else err invalid_input

unfoldable pub normalize_permissions : List String → Result (List String)
unfolding normalize_onto
normalize_permissions raw = normalize_onto [] raw

-- A field that may be omitted.
abbrev pub checked_field : {A B : Type 0} → (A → Result B) → Option A → Action (Option B)
checked_field f none = pure none
checked_field f (some a) = checked (f a) >>= λ b. pure (some b)

abbrev pub same_error : Error → Error
same_error e = e

unfoldable pub store_role : RoleService → String → CreateRoleRow → Action RoleDetail
unfolding create_role_on_tx create_role_row commit
store_role s actor row =
    commit s.unit_of_work s.audit_recorder same_error (create_role_on_tx row) (create_role_row row)
      (build_role_event "roles.role.created" "Role created." actor)

-- CreateRole after its input is checked.
unfoldable pub create_checked :
    RoleService → String → String → String → List String → Action RoleDetail
unfolding store_role
create_checked s actor name description permissions = do
  at ← now
  id ← reading (λ env n. env.new_uuid n)
  store_role s actor record {
    id = id;
    name = name;
    description = description;
    permissions = permissions;
    created_at = at;
    updated_at = at;
  }

unfoldable pub create_role : RoleService → CreateRoleInput → Action RoleDetail
unfolding normalize_name normalize_description normalize_permissions create_checked
create_role s input = do
  name ← checked (normalize_name input.name)
  description ← checked (normalize_description input.description)
  permissions ← checked (normalize_permissions input.permissions)
  create_checked s input.actor_user_id name description permissions

unfoldable pub rewrite_role : RoleService → String → UpdateRoleRow → Action RoleDetail
unfolding update_role_on_tx update_role_row commit
rewrite_role s actor row =
    commit s.unit_of_work s.audit_recorder role_missing (update_role_on_tx row)
      (update_role_row row) (build_role_event "roles.role.updated" "Role updated." actor)

-- UpdateRole for a role that is not a system role.
unfoldable pub update_custom : RoleService → UpdateRoleInput → ℕ → Action RoleDetail
unfolding normalize_name normalize_description normalize_permissions rewrite_role
update_custom s input role_id = do
  at ← now
  name ← checked_field normalize_name input.name
  description ← checked_field normalize_description input.description
  permissions ← checked_field normalize_permissions input.permissions
  rewrite_role s input.actor_user_id record {
    id = role_id;
    name = name;
    description = description;
    permissions = permissions;
    updated_at = at;
  }

unfoldable pub update_role : RoleService → UpdateRoleInput → Action RoleDetail
unfolding parse_uuid_field get_role_by_id update_custom
update_role s input = do
  role_id ← parse_uuid_field input.role_id
  raise_if (is_none input.name && is_none input.description && is_none input.permissions)
      invalid_input
  existing ← or_else role_missing (get_role_by_id role_id)
  raise_if existing.role.is_system system_role
  update_custom s input role_id

abbrev pub deletion : ℕ → RoleDetail → Action RoleDetail
deletion id existing = delete_role_row id >>= λ _. pure existing

-- DeleteRole for a role that is not a system role.
unfoldable pub delete_checked : RoleService → String → ℕ → RoleDetail → Action (Unit {0})
unfolding delete_role_row commit
delete_checked s actor role_id existing = do
  raise_if (ltb 0 existing.user_count) role_in_use
  commit s.unit_of_work s.audit_recorder same_error (deletion role_id existing)
      (deletion role_id existing) (build_role_event "roles.role.deleted" "Role deleted." actor)
  pure tt

unfoldable pub delete_role : RoleService → String → String → Action (Unit {0})
unfolding parse_uuid_field get_role_by_id delete_checked
delete_role s actor id = do
  role_id ← parse_uuid_field id
  existing ← or_else role_missing (get_role_by_id role_id)
  raise_if existing.role.is_system system_role
  delete_checked s actor role_id existing
