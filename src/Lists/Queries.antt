-- ===== src/Lists/Queries.antt =====
-- The lists by pages: ListProjects of internal/projects/service/service.go and of
-- internal/store/projectsrepo/projects.go, ListUsers of internal/users/service/service.go and of
-- internal/store/usersrepo/users.go.
use wow_dashboard_api.Prelude.{
  ℕ, String, Bool, true, false, not, Option, none, some, List, ◌&&◌, ◌||◌, ◌==◌, map, str_eq, ltb,
  length, select_where, exists_where, if◌then◌else◌,
}
use wow_dashboard_api.Prelude.Text.{trim_space, to_lower, is_empty}
use wow_dashboard_api.Prelude.Sorting.{order_by}
use wow_dashboard_api.Store.Schema.{User, UserStatus, active, disabled, Project, ProjectStatus, Db}
use wow_dashboard_api.Store.Effect.{
  checked, Action, Error, Result, ok, err, invalid_input, invalid_pagination, internal, statement,
  pure, or_else, ◌>>=◌,
}
use wow_dashboard_api.Auth.Users.{role_names}
use wow_dashboard_api.Users.Store.{UserDetail}
use wow_dashboard_api.Users.Service.{normalize_status}
use wow_dashboard_api.Projects.Repository.{role_in}
use wow_dashboard_api.Projects.Operations.{parse_uuid_field, normalize_status_for_update}
use wow_dashboard_api.Lists.Keyset.{take, drop}
use wow_dashboard_api.Lists.Search.{escape_like_pattern, ilike_contains}
use wow_dashboard_api.Lists.Pagination.{ℤ, pos, negsuc, to_int32, Params, Normalized, normalize}

-- A page of rows with the numbers that are answered beside it.
pub record Page (A : Type 0) : Type 0 where
  pub rows : List A
  pub page : ℕ
  pub page_size : ℕ
  pub total : ℕ

-- LIMIT and OFFSET; PostgreSQL refuses a negative one.
abbrev pub limited : {A : Type 0} → ℕ → ℤ → List A → Result (List A)
limited limit (negsuc n) rows = err internal
limited limit (pos offset) rows = ok (take limit (drop offset rows))

-- pgText: an empty text is NULL, and NULL lets every row pass.
abbrev passes : (String → Bool) → String → Bool
passes test value = is_empty (trim_space value) || test (trim_space value)

abbrev pub map_pagination_error : Error → Error
map_pagination_error invalid_pagination = invalid_input
map_pagination_error e = e

-- Count, and then read the page: two statements.
unfoldable pub list_page : {A : Type 0} → (Db → List A) → Normalized → Action (Page A)
list_page rows n = do
  total ← statement (λ d. (ok (length (rows d)), d))
  found ← statement (λ d. (limited n.page_size (to_int32 n.offset) (rows d), d))
  pure (record { rows = found; page = n.page; page_size = n.page_size; total = total })

abbrev is_newer : ℕ → ℕ → ℕ → ℕ → Bool
is_newer at id at' id' = ltb at' at || at == at' && not (ltb id id')

abbrev same_project_status : ProjectStatus → ProjectStatus → Bool
same_project_status a b = elim a [
  | ProjectStatus.active ↦ elim b [ ProjectStatus.active ↦ true | ProjectStatus.archived ↦ false ]
  | ProjectStatus.archived ↦ elim b [ ProjectStatus.active ↦ false | ProjectStatus.archived ↦ true ]
]

abbrev project_passes : Db → ℕ → String → Option ProjectStatus → Project → Bool
project_passes d user search status p =
    elim (role_in d user p) [ none ↦ false | some role ↦ true ]
    && passes (λ term. ilike_contains term p.name || ilike_contains term p.description) search
    && elim status [ none ↦ true | some wanted ↦ same_project_status p.status wanted ]

-- ListProjectsPage without its LIMIT, which CountProjectsPage counts.
unfoldable pub project_rows : ℕ → String → Option ProjectStatus → Db → List Project
unfolding ilike_contains order_by trim_space
project_rows user search status d =
    order_by (λ p q. is_newer p.created_at p.id q.created_at q.id)
      (select_where (project_passes d user search status) d.projects)

unfoldable pub normalize_project_filter : String → Result (Option ProjectStatus)
unfolding to_lower trim_space normalize_status_for_update
normalize_project_filter value =
    if is_empty (to_lower (trim_space value))
    then ok none
    else (elim (normalize_status_for_update value) [
      | none ↦ err invalid_input
      | some status ↦ ok (some status)
    ])

unfoldable pub list_projects : String → Params → String → Action (Page Project)
unfolding parse_uuid_field normalize normalize_project_filter escape_like_pattern project_rows
    list_page
list_projects user params status = do
  user_id ← parse_uuid_field user
  page ← or_else map_pagination_error (checked (normalize params))
  wanted ← checked (normalize_project_filter status)
  list_page (project_rows user_id (escape_like_pattern page.search) wanted) page

abbrev same_user_status : UserStatus → UserStatus → Bool
same_user_status a b = elim a [
  | active ↦ elim b [ active ↦ true | disabled ↦ false ]
  | disabled ↦ elim b [ active ↦ false | disabled ↦ true ]
]

abbrev user_passes : Db → String → String → Option UserStatus → User → Bool
user_passes d search role status u =
    passes (λ term. ilike_contains term u.email || ilike_contains term u.display_name) search
    && elim status [ none ↦ true | some wanted ↦ same_user_status u.status wanted ]
    && passes (λ name. exists_where (λ r. str_eq r name) (role_names u.id d)) role

-- ListUsersPage without its LIMIT, which CountUsersPage counts.
unfoldable pub user_rows : String → String → Option UserStatus → Db → List UserDetail
unfolding ilike_contains order_by trim_space
user_rows search role status d =
    map (λ u. record { user = u; roles = role_names u.id d })
      (order_by (λ u v. is_newer u.created_at u.id v.created_at v.id)
        (select_where (user_passes d search role status) d.users))

-- normalizeStatusFilter
unfoldable pub normalize_user_filter : String → Result (Option UserStatus)
unfolding trim_space normalize_status
normalize_user_filter value =
    if is_empty (trim_space value)
    then ok none
    else (elim (normalize_status value) [ err e ↦ err e | ok status ↦ ok (some status) ])

unfoldable pub list_users : Params → String → String → Action (Page UserDetail)
unfolding normalize normalize_user_filter escape_like_pattern user_rows list_page trim_space
list_users params role status = do
  page ← or_else map_pagination_error (checked (normalize params))
  wanted ← checked (normalize_user_filter status)
  list_page (user_rows (escape_like_pattern page.search) (trim_space role) wanted) page
