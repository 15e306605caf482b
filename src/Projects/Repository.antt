-- ===== src/Projects/Repository.antt =====
-- The store of projects: internal/store/projectsrepo/projects.go, members.go and notifications.go.
use wow_dashboard_api.Prelude.{
  ℕ, String, Bool, true, false, Option, none, some, List, [], ◌∷◌, ◌++◌, ◌==◌, ◌&&◌, not, str_eq,
  if◌then◌else◌, find_where, select_where, exists_where, update_where, delete_where, count_where,
  leb, ltb, ◌||◌,
}
use wow_dashboard_api.Prelude.Sorting.{order_by}
use wow_dashboard_api.Store.Schema.{Project, ProjectStatus, ProjectMember, ProjectRole, User, Db}
use wow_dashboard_api.Store.Effect.{
  Action, Result, ok, err, internal, project_not_found, project_name_already_exists,
  project_member_not_found, member_already_exists, member_user_not_found, statement,
}
use wow_dashboard_api.Auth.Users.{has_email}

pub data AccessRole : Type 0 where
  owner editor viewer : AccessRole

abbrev pub can_edit : AccessRole → Bool
can_edit AccessRole.owner = true
can_edit AccessRole.editor = true
can_edit AccessRole.viewer = false

abbrev pub is_owner : AccessRole → Bool
is_owner AccessRole.owner = true
is_owner AccessRole.editor = false
is_owner AccessRole.viewer = false

pub record ProjectAccess : Type 0 where
  pub project : Project
  pub access_role : AccessRole

-- domain.CreateProjectInput has the fields of a row.
abbrev pub has_project_id : ℕ → Project → Bool
has_project_id id p = p.id == id

abbrev pub has_name_of : ℕ → String → Project → Bool
has_name_of owner_id name p = p.owner_user_id == owner_id && str_eq p.name name

-- INSERT is refused by the primary key, by the unique index on the owner's names and by the
-- reference to users.
unfoldable pub create_project_row : Project → Action Project
create_project_row p = statement λ d.
    if exists_where (has_project_id p.id) d.projects
    then (err internal, d)
    else if exists_where (has_name_of p.owner_user_id p.name) d.projects
    then (err project_name_already_exists, d)
    else if exists_where (λ u. u.id == p.owner_user_id) d.users
    then (ok p, record d { projects = d.projects ++ p ∷ [] })
    else (err internal, d)

abbrev pub is_membership : ℕ → ℕ → ProjectMember → Bool
is_membership project user m = m.project_id == project && m.user_id == user

abbrev role_access : Option ProjectMember → Option AccessRole
role_access none = none
role_access (some m) = elim m.role [
  | ProjectRole.viewer ↦ some AccessRole.viewer
  | ProjectRole.editor ↦ some AccessRole.editor
]

-- The CASE of GetProjectWithAccess for a project that is found.
abbrev pub role_in : Db → ℕ → Project → Option AccessRole
role_in d user p =
    if p.owner_user_id == user
    then some AccessRole.owner
    else role_access (find_where (is_membership p.id user) d.project_members)

abbrev access_by : Db → ℕ → Project → Option ProjectAccess
access_by d user p = elim (role_in d user p) [
  | none ↦ none
  | some r ↦ some (record { project = p; access_role = r })
]

-- The row of GetProjectWithAccess, if there is one.
abbrev pub access_to : Db → ℕ → ℕ → Option ProjectAccess
access_to d project user = elim (find_where (has_project_id project) d.projects) [
  | none ↦ none
  | some p ↦ access_by d user p
]

abbrev found_access : Option ProjectAccess → Result ProjectAccess
found_access none = err project_not_found
found_access (some a) = ok a

unfoldable pub get_project_with_access : ℕ → ℕ → Action ProjectAccess
get_project_with_access project user = statement λ d. (found_access (access_to d project user), d)

-- domain.UpdateProjectInput: none leaves the column.
pub record UpdateProjectRow : Type 0 where
  pub id : ℕ
  pub name : Option String
  pub description : Option String
  pub status : Option ProjectStatus
  pub updated_at : ℕ

abbrev coalesce : {A : Type 0} → Option A → A → A
coalesce none a = a
coalesce (some b) a = b

abbrev pub updated_project : UpdateProjectRow → Project → Project
updated_project input p = record p {
  name = coalesce input.name p.name;
  description = coalesce input.description p.description;
  status = coalesce input.status p.status;
  updated_at = input.updated_at;
}

-- Whether another project of the owner has the name.
abbrev name_taken : Db → Project → Bool
name_taken d p =
    exists_where (λ q. not (q.id == p.id) && has_name_of p.owner_user_id p.name q) d.projects

abbrev write_project : Db → UpdateProjectRow → Option Project → Result Project × Db
write_project d input none = (err project_not_found, d)
write_project d input (some old) =
    if name_taken d (updated_project input old) then (err project_name_already_exists, d) else (
      ok (updated_project input old),
      record d {
        projects = update_where (has_project_id input.id) (updated_project input) d.projects;
      },
    )

unfoldable pub update_project_row : UpdateProjectRow → Action Project
update_project_row input =
    statement λ d. write_project d input (find_where (has_project_id input.id) d.projects)

abbrev pub archived_project : ℕ → Project → Project
archived_project at p = record p { status = ProjectStatus.archived; updated_at = at }

abbrev pub is_owned_project : ℕ → ℕ → Project → Bool
is_owned_project owner_id id p = p.id == id && p.owner_user_id == owner_id

abbrev found_project : (Project → Project) → Option Project → Result Project
found_project f none = err project_not_found
found_project f (some p) = ok (f p)

unfoldable pub archive_project_row : ℕ → ℕ → ℕ → Action Project
archive_project_row owner_id id at = statement λ d. (
  found_project (archived_project at) (find_where (is_owned_project owner_id id) d.projects),
  record d {
    projects = update_where (is_owned_project owner_id id) (archived_project at) d.projects;
  },
)

-- INSERT is refused by the primary key and by the references.
unfoldable pub add_project_member : ProjectMember → Action ProjectMember
add_project_member m = statement λ d.
    if exists_where (is_membership m.project_id m.user_id) d.project_members
    then (err member_already_exists, d)
    else if exists_where (has_project_id m.project_id) d.projects
        && exists_where (λ u. u.id == m.user_id) d.users
    then (ok m, record d { project_members = d.project_members ++ m ∷ [] })
    else (err internal, d)

pub record ProjectMemberDetail : Type 0 where
  pub member : ProjectMember
  pub email : String
  pub display_name : String

abbrev member_detail : List User → ProjectMember → List ProjectMemberDetail
member_detail users m = elim (find_where (λ u. u.id == m.user_id) users) [
  | none ↦ []
  | some u ↦ record { member = m; email = u.email; display_name = u.display_name } ∷ []
]

abbrev member_details : List User → List ProjectMember → List ProjectMemberDetail
member_details users [] = []
member_details users (m ∷ ms) = member_detail users m ++ member_details users ms

-- ORDER BY created_at, user_id
abbrev joined_first : ProjectMember → ProjectMember → Bool
joined_first a b =
    ltb a.created_at b.created_at || a.created_at == b.created_at && leb a.user_id b.user_id

unfoldable pub list_project_members : ℕ → Action (List ProjectMemberDetail)
list_project_members project = statement λ d. (
  ok (
      member_details d.users
        (order_by joined_first (select_where (λ m. m.project_id == project) d.project_members))),
  d,
)

abbrev found_member : (ProjectMember → ProjectMember) → Option ProjectMember → Result ProjectMember
found_member f none = err project_member_not_found
found_member f (some m) = ok (f m)

unfoldable pub get_project_member : ℕ → ℕ → Action ProjectMember
get_project_member project user =
    statement
      λ d. (found_member (λ m. m) (find_where (is_membership project user) d.project_members), d)

abbrev pub with_role : ProjectRole → ℕ → ProjectMember → ProjectMember
with_role role at m = record m { role = role; updated_at = at }

unfoldable pub update_project_member_role : ℕ → ℕ → ProjectRole → ℕ → Action ProjectMember
update_project_member_role project user role at = statement λ d. (
  found_member (with_role role at) (find_where (is_membership project user) d.project_members),
  record d {
    project_members =
        update_where (is_membership project user) (with_role role at) d.project_members;
  },
)

unfoldable pub remove_project_member : ℕ → ℕ → Action (Unit {0})
remove_project_member project user = statement λ d. (
  (if count_where (is_membership project user) d.project_members == 0
      then err project_member_not_found
      else ok tt),
  record d { project_members = delete_where (is_membership project user) d.project_members },
)

abbrev found_id : Option User → Result ℕ
found_id none = err member_user_not_found
found_id (some u) = ok u.id

unfoldable pub find_user_by_email : String → Action ℕ
find_user_by_email email = statement λ d. (found_id (find_where (has_email email) d.users), d)
