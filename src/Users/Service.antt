-- ===== src/Users/Service.antt =====
-- The management of accounts: GetUser and UpdateUser of internal/users/service/service.go with the
-- events of audit.go.
use wow_dashboard_api.Prelude.{
  ℕ, String, Bool, false, not, Option, none, some, List, [], ◌∷◌, ◌++◌, ◌&&◌, ◌||◌, ◌==◌, map, ltb,
  str_eq, is_none, exists_where, if◌then◌else◌,
}
use wow_dashboard_api.Prelude.Text.{trim_space, to_lower, byte_length}
use wow_dashboard_api.Store.Schema.{UserStatus, active, disabled}
use wow_dashboard_api.Store.Effect.{
  Action, Env, Error, Result, ok, err, user_not_found, role_not_found, not_found, invalid_input,
  insufficient_privilege, self_modification, asks, raise_if, or_else, pure, ◌>>=◌, ◌>>◌,
}
use wow_dashboard_api.Store.Mutation.{Event, commit}
use wow_dashboard_api.Rbac.{has_permission, permission_all}
use wow_dashboard_api.Auth.Audit.{field}
use wow_dashboard_api.Auth.Service.{now, status_text}
use wow_dashboard_api.Projects.Operations.{parse_uuid_field}
use wow_dashboard_api.Roles.Service.{checked_field, list_field}
use wow_dashboard_api.Users.Store.{
  UserDetail, UpdateUserRow, get_user_detail, update_user_on_tx, update_user_row, has_number,
}

-- uuid 00000000-0000-0000-0000-0000000a0001
abbrev pub system_admin_role_id : ℕ
system_admin_role_id = 655_361

pub record UserService : Type 0 where
  pub unit_of_work : Bool
  pub audit_recorder : Bool

pub record UpdateUserInput : Type 0 where
  pub actor_user_id : String
  pub actor_roles : List String
  pub actor_permissions : List String
  pub target_user_id : String
  pub status : Option String
  pub role_ids : Option (List String)
  pub avatar_url : Option String
  pub phone : Option String
  pub job_title : Option String
  pub company : Option String

abbrev pub has_role_named : String → List String → Bool
has_role_named name roles = exists_where (λ r. str_eq (trim_space r) name) roles

-- actorCanGrantSystemAdmin
unfoldable pub can_grant_system_admin : List String → List String → Bool
unfolding has_permission trim_space
can_grant_system_admin roles permissions =
    has_permission permissions permission_all || has_role_named "admin" roles

unfoldable pub normalize_status : String → Result UserStatus
unfolding to_lower trim_space
normalize_status value =
    let text = to_lower (trim_space value) in
    if str_eq text "active"
    then ok active
    else (if str_eq text "disabled" then ok disabled else err invalid_input)

-- The loop of parseRoleIDs: `ids` is what is kept so far.
unfoldable pub parse_onto : (String → Option ℕ) → List ℕ → List String → Result (List ℕ)
unfolding trim_space
parse_onto parse ids [] = ok ids
parse_onto parse ids (raw ∷ rest) =
    let parsed = parse (trim_space raw) in
    elim parsed [
      | none ↦ err invalid_input
      | some id ↦
          let skipped = parse_onto parse ids rest in
          let kept = parse_onto parse (ids ++ id ∷ []) rest in
          if has_number ids id then skipped else kept
    ]

unfoldable pub parse_role_ids : (String → Option ℕ) → List String → Result (List ℕ)
unfolding parse_onto
parse_role_ids parse [] = err invalid_input
parse_role_ids parse (raw ∷ rest) = parse_onto parse [] (raw ∷ rest)

abbrev max_profile_field_len : ℕ
max_profile_field_len = 256

abbrev max_avatar_field_len : ℕ
max_avatar_field_len = 262_144

-- normalizeProfileField of a field that is given.
unfoldable pub normalize_profile_field : ℕ → String → Result String
unfolding trim_space byte_length
normalize_profile_field limit value =
    if ltb limit (byte_length (trim_space value)) then err invalid_input else ok (trim_space value)

abbrev named : {A : Type 0} → String → Option A → List String
named name none = []
named name (some a) = name ∷ []

abbrev changed_fields : UpdateUserRow → List String
changed_fields row =
    named "status" row.status
    ++ (named "roles" row.role_ids
        ++ (named "avatarUrl" row.avatar_url
            ++ (named "phone" row.phone
                ++ (named "jobTitle" row.job_title ++ named "company" row.company))))

abbrev given_ids : Option (List ℕ) → List ℕ
given_ids none = []
given_ids (some ids) = ids

abbrev pub build_user_updated_event : ℕ → UpdateUserRow → Env → UserDetail → Event
build_user_updated_event actor row env user = record {
  event_type = "users.user.updated";
  message = "User updated.";
  metadata =
      field "target_user_id" (env.uuid_string row.id)
      ++ (field "actor_user_id" (env.uuid_string actor)
          ++ (list_field "changed_fields" (changed_fields row)
              ++ (field "status" (status_text user.user.status)
                  ++ (list_field "role_ids" (map env.uuid_string (given_ids row.role_ids))
                      ++ (field "request_id" env.request_id
                          ++ field "impersonator_id" env.impersonator)))));
}

abbrev pub user_missing : Error → Error
user_missing user_not_found = not_found
user_missing e = e

-- mapUpdateUserError
abbrev pub map_update_user_error : Error → Error
map_update_user_error user_not_found = not_found
map_update_user_error role_not_found = invalid_input
map_update_user_error e = e

unfoldable pub fetch_user : ℕ → Action UserDetail
unfolding get_user_detail
fetch_user id = or_else user_missing (get_user_detail id)

unfoldable pub get_user : String → Action UserDetail
unfolding parse_uuid_field fetch_user
get_user id = parse_uuid_field id >>= fetch_user

-- The end of UpdateUser.
unfoldable pub apply_update : UserService → ℕ → UpdateUserRow → Action UserDetail
unfolding commit update_user_on_tx update_user_row
apply_update s actor row =
    commit s.unit_of_work s.audit_recorder map_update_user_error (update_user_on_tx row)
      (update_user_row row) (build_user_updated_event actor row)

abbrev pub can_grant : UpdateUserInput → Bool
can_grant input = can_grant_system_admin input.actor_roles input.actor_permissions

-- UpdateUser after its input is normalised.
unfoldable pub update_normalized :
    UserService → UpdateUserInput → ℕ → UpdateUserRow → Action UserDetail
unfolding fetch_user can_grant_system_admin apply_update
update_normalized s input actor row = do
  target ← fetch_user row.id
  raise_if (has_role_named "admin" target.roles && not (can_grant input)) insufficient_privilege
  apply_update s actor row

abbrev pub grants_admin : Option (List ℕ) → Bool
grants_admin none = false
grants_admin (some ids) = has_number ids system_admin_role_id

unfoldable pub normalize_fields :
    UpdateUserInput → ℕ → ℕ → Option UserStatus → Option (List ℕ) → Action UpdateUserRow
unfolding normalize_profile_field
normalize_fields input target at status role_ids = do
  avatar_url ← checked_field (normalize_profile_field max_avatar_field_len) input.avatar_url
  phone ← checked_field (normalize_profile_field max_profile_field_len) input.phone
  job_title ← checked_field (normalize_profile_field max_profile_field_len) input.job_title
  company ← checked_field (normalize_profile_field max_profile_field_len) input.company
  pure record {
    id = target;
    status = status;
    role_ids = role_ids;
    avatar_url = avatar_url;
    phone = phone;
    job_title = job_title;
    company = company;
    updated_at = at;
  }

-- UpdateUser for two accounts that differ.
unfoldable pub update_other : UserService → UpdateUserInput → ℕ → ℕ → Action UserDetail
unfolding normalize_status parse_role_ids can_grant_system_admin normalize_fields update_normalized
update_other s input actor target = do
  at ← now
  status ← checked_field normalize_status input.status
  parse ← asks (λ env. env.parse_uuid)
  role_ids ← checked_field (parse_role_ids parse) input.role_ids
  raise_if (grants_admin role_ids && not (can_grant input)) insufficient_privilege
  row ← normalize_fields input target at status role_ids
  update_normalized s input actor row

abbrev pub changes_nothing : UpdateUserInput → Bool
changes_nothing input =
    is_none input.status
    && is_none input.role_ids
    && is_none input.avatar_url
    && is_none input.phone
    && is_none input.job_title
    && is_none input.company

unfoldable pub update_user : UserService → UpdateUserInput → Action UserDetail
unfolding parse_uuid_field update_other
update_user s input = do
  actor ← parse_uuid_field input.actor_user_id
  target ← parse_uuid_field input.target_user_id
  raise_if (actor == target) self_modification
  raise_if (changes_nothing input) invalid_input
  update_other s input actor target
