-- ===== src/Projects/Members.antt =====
-- Operations on the members of a project: internal/projects/service/members.go.
use wow_dashboard_api.Prelude.{
  ℕ, String, Option, none, some, List, [], ◌==◌, not, str_eq, if◌then◌else◌,
}
use wow_dashboard_api.Prelude.Text.{trim_space, to_lower, is_empty}
use wow_dashboard_api.Store.Schema.{ProjectMember, ProjectRole}
use wow_dashboard_api.Store.Effect.{
  Action, Error, invalid_input, not_found, forbidden, member_conflict, project_member_not_found,
  member_already_exists, member_user_not_found, pure, raise_if, reading, or_raise, or_else, ◌>>=◌,
  ◌>>◌,
}
use wow_dashboard_api.Projects.Repository.{
  ProjectAccess, ProjectMemberDetail, is_owner, find_user_by_email, add_project_member,
  list_project_members, update_project_member_role, remove_project_member,
}
use wow_dashboard_api.Projects.Audit.{ProjectEvent, emit_member_added}
use wow_dashboard_api.Projects.Operations.{ProjectService, parse_uuid_field, project_access, commit}

unfoldable pub list_members : String → String → Action (List ProjectMemberDetail)
unfolding parse_uuid_field project_access list_project_members
list_members user_id id = do
  user ← parse_uuid_field user_id
  project ← parse_uuid_field id
  project_access user project
  list_project_members project

unfoldable pub require_owner : String → String → Action ProjectAccess
unfolding parse_uuid_field project_access
require_owner user_id id = do
  user ← parse_uuid_field user_id
  project ← parse_uuid_field id
  access ← project_access user project
  raise_if (not (is_owner access.access_role)) forbidden
  pure access

unfoldable pub normalize_project_role : String → Option ProjectRole
normalize_project_role value =
    let role = to_lower (trim_space value) in
    if str_eq role "viewer"
    then some ProjectRole.viewer
    else if str_eq role "editor"
    then some ProjectRole.editor
    else none

abbrev pub project_role_text : ProjectRole → String
project_role_text ProjectRole.viewer = "viewer"
project_role_text ProjectRole.editor = "editor"

abbrev pub member_event :
    {A : Type 0} → String → String → ProjectAccess → ℕ → String → (ℕ → String) → A → ProjectEvent
member_event event_type message access target role uuid_string _ = record {
  event_type = event_type;
  message = message;
  metadata = record {
    project_id = uuid_string access.project.id;
    owner_user_id = uuid_string access.project.owner_user_id;
    target_user_id = uuid_string target;
    status = "";
    role = role;
    changed_fields = [];
  };
}

pub record AddMemberInput : Type 0 where
  pub requesting_user_id : String
  pub project_id : String
  pub email : String
  pub role : String

abbrev user_missing : Error → Error
user_missing member_user_not_found = invalid_input
user_missing e = e

abbrev pub already_member : Error → Error
already_member member_already_exists = member_conflict
already_member e = e

-- AddMember for a requester who owns the project.
unfoldable pub add_owned : ProjectService → AddMemberInput → ProjectAccess → Action ProjectMember
unfolding find_user_by_email add_project_member emit_member_added commit normalize_project_role
add_owned s input access = do
  role ← or_raise (normalize_project_role input.role) invalid_input
  raise_if (is_empty (to_lower (trim_space input.email))) invalid_input
  target ← or_else user_missing (find_user_by_email (to_lower (trim_space input.email)))
  raise_if (target == access.project.owner_user_id) member_conflict
  at ← reading λ env n. env.clock n
  commit s already_member
      (add_project_member (record {
        project_id = access.project.id;
        user_id = target;
        role = role;
        created_at = at;
        updated_at = at;
      }))
      (member_event "projects.member.added" "Project member added." access target
        (project_role_text role))
      (emit_member_added target access.project)

unfoldable pub add_member : ProjectService → AddMemberInput → Action ProjectMember
unfolding require_owner add_owned
add_member s input = do
  access ← require_owner input.requesting_user_id input.project_id
  add_owned s input access

abbrev pub member_missing : Error → Error
member_missing project_member_not_found = not_found
member_missing e = e

pub record UpdateMemberRoleInput : Type 0 where
  pub requesting_user_id : String
  pub project_id : String
  pub target_user_id : String
  pub role : String

unfoldable pub update_member_role : ProjectService → UpdateMemberRoleInput → Action ProjectMember
unfolding require_owner parse_uuid_field update_project_member_role commit normalize_project_role
update_member_role s input = do
  access ← require_owner input.requesting_user_id input.project_id
  target ← parse_uuid_field input.target_user_id
  role ← or_raise (normalize_project_role input.role) invalid_input
  at ← reading λ env n. env.clock n
  commit s member_missing (update_project_member_role access.project.id target role at)
      (member_event "projects.member.role_changed" "Project member role changed." access target
        (project_role_text role))
      (pure tt)

unfoldable pub remove_member : ProjectService → String → String → String → Action (Unit {0})
unfolding require_owner parse_uuid_field remove_project_member commit
remove_member s user_id id target_id = do
  access ← require_owner user_id id
  target ← parse_uuid_field target_id
  commit s member_missing (remove_project_member access.project.id target)
      (member_event "projects.member.removed" "Project member removed." access target "") (pure tt)
