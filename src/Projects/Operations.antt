-- ===== src/Projects/Operations.antt =====
-- Operations on projects: GetProject, CreateProject, UpdateProject and ArchiveProject of
-- internal/projects/service/service.go.
use Prim.Native.String.{len}
use wow_dashboard_api.Prelude.{
  ℕ, String, Bool, Option, none, some, List, [], ◌∷◌, ◌++◌, ◌&&◌, not, str_eq, ltb, is_none,
  if◌then◌else◌,
}
use wow_dashboard_api.Prelude.Text.{trim_space, to_lower, is_empty}
use wow_dashboard_api.Store.Schema.{Project, ProjectStatus}
use wow_dashboard_api.Store.Effect.{
  Action, Error, invalid_input, not_found, forbidden, name_conflict, project_not_found,
  project_name_already_exists, pure, raise_if, reading, asks, or_raise, or_else, transaction,
  when◌then◌else◌, ◌>>=◌, ◌>>◌,
}
use wow_dashboard_api.Projects.Repository.{
  ProjectAccess, can_edit, is_owner, create_project_row, get_project_with_access,
  update_project_row, archive_project_row,
}
use wow_dashboard_api.Projects.Audit.{ProjectEvent, record_project_event, record_project_audit}

-- The service's optional parts.
pub record ProjectService : Type 0 where
  pub unit_of_work : Bool
  pub audit_recorder : Bool

abbrev pub max_name_len : ℕ
max_name_len = 120

abbrev pub max_description_len : ℕ
max_description_len = 2000

-- parseUUIDField over pathparam.ParseUUID
unfoldable pub parse_uuid_field : String → Action ℕ
parse_uuid_field value = do
  raise_if (is_empty (trim_space value)) invalid_input
  parse ← asks (λ env. env.parse_uuid)
  or_raise (parse (trim_space value)) invalid_input

abbrev pub access_missing : Error → Error
access_missing project_not_found = not_found
access_missing e = e

unfoldable pub project_access : ℕ → ℕ → Action ProjectAccess
unfolding get_project_with_access
project_access user project = or_else access_missing (get_project_with_access project user)

unfoldable pub get_project : String → String → Action Project
unfolding parse_uuid_field project_access
get_project user id = do
  user_id ← parse_uuid_field user
  project_id ← parse_uuid_field id
  access ← project_access user_id project_id
  pure access.project

-- The end of every mutation: the write, its event and a notice in one transaction, or the write and
-- then the event as best effort. `map_error` is the mutation's mapErr.
unfoldable pub commit :
    {A : Type 0}
    → ProjectService
    → (Error → Error)
    → Action A
    → ((ℕ → String) → A → ProjectEvent)
    → Action (Unit {0})
    → Action A
unfolding record_project_event record_project_audit
commit s map_error write event notify = do
  uuid_string ← asks (λ env. env.uuid_string)
  when s.unit_of_work
      then or_else map_error (
          transaction (do
            result ← write
            record_project_event (event uuid_string result)
            notify
            pure result))
      else (do
        result ← or_else map_error write
        record_project_audit s.audit_recorder (event uuid_string result)
        pure result)

abbrev pub project_status_text : ProjectStatus → String
project_status_text ProjectStatus.active = "active"
project_status_text ProjectStatus.archived = "archived"

abbrev project_event : String → String → List String → (ℕ → String) → Project → ProjectEvent
project_event event_type message changed uuid_string p = record {
  event_type = event_type;
  message = message;
  metadata = record {
    project_id = uuid_string p.id;
    owner_user_id = uuid_string p.owner_user_id;
    target_user_id = "";
    status = project_status_text p.status;
    role = "";
    changed_fields = changed;
  };
}

-- normalizeStatusForUpdate
unfoldable pub normalize_status_for_update : String → Option ProjectStatus
normalize_status_for_update value =
    let status = to_lower (trim_space value) in
    if str_eq status "active"
    then some ProjectStatus.active
    else if str_eq status "archived"
    then some ProjectStatus.archived
    else none

-- normalizeStatusForCreate
unfoldable pub normalize_status_for_create : String → Option ProjectStatus
unfolding normalize_status_for_update
normalize_status_for_create value =
    if is_empty (to_lower (trim_space value))
    then some ProjectStatus.active
    else normalize_status_for_update value

pub record CreateProjectInput : Type 0 where
  pub owner_user_id : String
  pub name : String
  pub description : String
  pub status : String

abbrev pub name_conflicts : Error → Error
name_conflicts project_name_already_exists = name_conflict
name_conflicts e = e

unfoldable pub create_project : ProjectService → CreateProjectInput → Action Project
unfolding parse_uuid_field create_project_row commit normalize_status_for_create
create_project s input = do
  owner_id ← parse_uuid_field input.owner_user_id
  raise_if (is_empty (trim_space input.name)) invalid_input
  raise_if (ltb max_name_len (len (trim_space input.name))) invalid_input
  raise_if (ltb max_description_len (len (trim_space input.description))) invalid_input
  status ← or_raise (normalize_status_for_create input.status) invalid_input
  at ← reading λ env n. env.clock n
  id ← reading λ env n. env.new_uuid n
  commit s name_conflicts
      (create_project_row (record {
        id = id;
        name = trim_space input.name;
        description = trim_space input.description;
        status = status;
        owner_user_id = owner_id;
        created_at = at;
        updated_at = at;
      }))
      (project_event "projects.project.created" "Project created." []) (pure tt)

-- A nil pointer is none.
pub record UpdateProjectInput : Type 0 where
  pub user_id : String
  pub id : String
  pub name : Option String
  pub description : Option String
  pub status : Option String

abbrev check_name : Option String → Action (Option String)
check_name none = pure none
check_name (some name) = do
  raise_if (is_empty (trim_space name)) invalid_input
  raise_if (ltb max_name_len (len (trim_space name))) invalid_input
  pure (some (trim_space name))

abbrev check_description : Option String → Action (Option String)
check_description none = pure none
check_description (some description) = do
  raise_if (ltb max_description_len (len (trim_space description))) invalid_input
  pure (some (trim_space description))

abbrev check_status : Option String → Action (Option ProjectStatus)
check_status none = pure none
check_status (some value) = do
  status ← or_raise (normalize_status_for_update value) invalid_input
  pure (some status)

abbrev named : {A : Type 0} → String → Option A → List String
named name none = []
named name (some _) = name ∷ []

abbrev update_fails : Error → Error
update_fails project_name_already_exists = name_conflict
update_fails project_not_found = not_found
update_fails e = e

-- UpdateProject after the access is known.
unfoldable pub update_accessible :
    ProjectService → UpdateProjectInput → ℕ → ProjectAccess → Action Project
unfolding update_project_row commit normalize_status_for_update
update_accessible s input id access = do
  raise_if (not (can_edit access.access_role)) forbidden
  at ← reading λ env n. env.clock n
  name ← check_name input.name
  description ← check_description input.description
  status ← check_status input.status
  commit s update_fails
      (update_project_row (record {
        id = id;
        name = name;
        description = description;
        status = status;
        updated_at = at;
      }))
      (project_event "projects.project.updated" "Project updated." (
        named "name" input.name
        ++ (named "description" input.description ++ named "status" input.status)))
      (pure tt)

unfoldable pub update_project : ProjectService → UpdateProjectInput → Action Project
unfolding parse_uuid_field project_access update_accessible
update_project s input = do
  user ← parse_uuid_field input.user_id
  id ← parse_uuid_field input.id
  raise_if (is_none input.name && is_none input.description && is_none input.status) invalid_input
  access ← project_access user id
  update_accessible s input id access

-- ArchiveProject after the access is known.
unfoldable pub archive_accessible : ProjectService → ℕ → ℕ → ProjectAccess → Action Project
unfolding archive_project_row commit
archive_accessible s user id access = do
  raise_if (not (is_owner access.access_role)) forbidden
  at ← reading λ env n. env.clock n
  commit s access_missing (archive_project_row user id at)
      (project_event "projects.project.archived" "Project archived." []) (pure tt)

unfoldable pub archive_project : ProjectService → String → String → Action Project
unfolding parse_uuid_field project_access archive_accessible
archive_project s user_id id = do
  user ← parse_uuid_field user_id
  project ← parse_uuid_field id
  access ← project_access user project
  archive_accessible s user project access
