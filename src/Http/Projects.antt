-- ===== src/Http/Projects.antt =====
-- The handlers of projects and their members: internal/http/handlers/projects.go and
-- project_members.go.
use wow_dashboard_api.Prelude.{ℕ, String, Option, List, map}
use wow_dashboard_api.Store.Schema.{Project, ProjectMember}
use wow_dashboard_api.Store.Effect.{Env}
use wow_dashboard_api.Projects.Repository.{ProjectMemberDetail}
use wow_dashboard_api.Projects.Operations.{
  ProjectService, get_project, create_project, update_project, archive_project, project_status_text,
}
use wow_dashboard_api.Projects.Members.{
  list_members, add_member, update_member_role, remove_member, project_role_text,
}
use wow_dashboard_api.Lists.Pagination.{Params}
use wow_dashboard_api.Lists.Queries.{Page, list_projects}
use wow_dashboard_api.Auth.Service.{Service}
use wow_dashboard_api.Http.Errors.{map_projects_error}
use wow_dashboard_api.Http.Endpoint.{Endpoint, answer, call, as_impersonator, ◌>>=◌}
use wow_dashboard_api.Http.Authorize.{authenticate, authorize_with_permission}

pub record ProjectItem : Type 0 where
  pub id : String
  pub name : String
  pub description : String
  pub status : String
  pub owner_user_id : String
  pub created_at : ℕ
  pub updated_at : ℕ

abbrev pub project_item : Env → Project → ProjectItem
project_item env p = record {
  id = env.uuid_string p.id;
  name = p.name;
  description = p.description;
  status = project_status_text p.status;
  owner_user_id = env.uuid_string p.owner_user_id;
  created_at = p.created_at;
  updated_at = p.updated_at;
}

abbrev pub projects_response : Page Project → Env → Page ProjectItem
projects_response found env = record {
  rows = map (project_item env) found.rows;
  page = found.page;
  page_size = found.page_size;
  total = found.total;
}

pub record ProjectDraft : Type 0 where
  pub name : String
  pub description : String
  pub status : String

pub record ProjectPatch : Type 0 where
  pub name : Option String
  pub description : Option String
  pub status : Option String

unfoldable pub get_projects_handler :
    Service → String → Params → String → Endpoint (Page ProjectItem)
unfolding authenticate list_projects map_projects_error
get_projects_handler s header params status = do
  user ← authenticate s header
  found ← call map_projects_error (list_projects user.id params status)
  answer (projects_response found)

unfoldable pub get_project_handler : Service → String → String → Endpoint ProjectItem
unfolding authenticate get_project map_projects_error
get_project_handler s header id = do
  user ← authenticate s header
  project ← call map_projects_error (get_project user.id id)
  answer (λ env. project_item env project)

unfoldable pub post_project_handler :
    Service → ProjectService → String → ProjectDraft → Endpoint ProjectItem
unfolding authorize_with_permission create_project map_projects_error
post_project_handler s projects header body = do
  user ← authorize_with_permission s header "projects:create"
  project ← call map_projects_error (
      as_impersonator user.impersonator_id (
        create_project projects record {
          owner_user_id = user.id;
          name = body.name;
          description = body.description;
          status = body.status;
        }))
  answer (λ env. project_item env project)

unfoldable pub patch_project_handler :
    Service → ProjectService → String → String → ProjectPatch → Endpoint ProjectItem
unfolding authenticate update_project map_projects_error
patch_project_handler s projects header id body = do
  user ← authenticate s header
  project ← call map_projects_error (
      as_impersonator user.impersonator_id (
        update_project projects record {
          user_id = user.id;
          id = id;
          name = body.name;
          description = body.description;
          status = body.status;
        }))
  answer (λ env. project_item env project)

unfoldable pub delete_project_handler :
    Service → ProjectService → String → String → Endpoint ProjectItem
unfolding authenticate archive_project map_projects_error
delete_project_handler s projects header id = do
  user ← authenticate s header
  project ←
      call map_projects_error
        (as_impersonator user.impersonator_id (archive_project projects user.id id))
  answer (λ env. project_item env project)

pub record ProjectMemberItem : Type 0 where
  pub user_id : String
  pub email : String
  pub display_name : String
  pub role : String
  pub created_at : ℕ
  pub updated_at : ℕ

pub record ProjectMemberGrant : Type 0 where
  pub user_id : String
  pub role : String
  pub created_at : ℕ
  pub updated_at : ℕ

abbrev pub project_member_item : Env → ProjectMemberDetail → ProjectMemberItem
project_member_item env m = record {
  user_id = env.uuid_string m.member.user_id;
  email = m.email;
  display_name = m.display_name;
  role = project_role_text m.member.role;
  created_at = m.member.created_at;
  updated_at = m.member.updated_at;
}

abbrev pub project_member_response : ProjectMember → Env → ProjectMemberGrant
project_member_response m env = record {
  user_id = env.uuid_string m.user_id;
  role = project_role_text m.role;
  created_at = m.created_at;
  updated_at = m.updated_at;
}

unfoldable pub list_members_handler : Service → String → String → Endpoint (List ProjectMemberItem)
unfolding authenticate list_members map_projects_error
list_members_handler s header project = do
  user ← authenticate s header
  members ← call map_projects_error (list_members user.id project)
  answer (λ env. map (project_member_item env) members)

unfoldable pub add_member_handler :
    Service → ProjectService → String → String → String → String → Endpoint ProjectMemberGrant
unfolding authenticate add_member map_projects_error
add_member_handler s projects header project email role = do
  user ← authenticate s header
  member ← call map_projects_error (
      as_impersonator user.impersonator_id (
        add_member projects record {
          requesting_user_id = user.id;
          project_id = project;
          email = email;
          role = role;
        }))
  answer (project_member_response member)

unfoldable pub update_member_handler :
    Service → ProjectService → String → String → String → String → Endpoint ProjectMemberGrant
unfolding authenticate update_member_role map_projects_error
update_member_handler s projects header project target role = do
  user ← authenticate s header
  member ← call map_projects_error (
      as_impersonator user.impersonator_id (
        update_member_role projects record {
          requesting_user_id = user.id;
          project_id = project;
          target_user_id = target;
          role = role;
        }))
  answer (project_member_response member)

unfoldable pub delete_member_handler :
    Service → ProjectService → String → String → String → Endpoint (Unit {0})
unfolding authenticate remove_member map_projects_error
delete_member_handler s projects header project target = do
  user ← authenticate s header
  call map_projects_error
      (as_impersonator user.impersonator_id (remove_member projects user.id project target))
