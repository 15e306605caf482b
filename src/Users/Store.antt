-- ===== src/Users/Store.antt =====
-- The store of accounts as administrators see it: internal/store/usersrepo/users.go.
use wow_dashboard_api.Prelude.{
  ℕ, String, Bool, not, Option, none, some, List, ◌++◌, ◌==◌, ◌&&◌, ◌||◌, map, is_some,
  if◌then◌else◌, length, select_where, exists_where, delete_where, count_where,
}
use wow_dashboard_api.Store.Schema.{User, UserStatus, UserRole, Db}
use wow_dashboard_api.Store.Effect.{
  Action, Result, ok, err, role_not_found, internal, statement, transaction, raise_if, pure,
  when◌then◌else◌, ◌>>=◌, ◌>>◌,
}
use wow_dashboard_api.Auth.Users.{get_user_by_id, get_user_roles, set_user, has_id, has_role}
use wow_dashboard_api.Roles.Store.{or_kept, has_role_id}

-- domain.User
pub record UserDetail : Type 0 where
  pub user : User
  pub roles : List String

-- domain.UpdateUserInput
pub record UpdateUserRow : Type 0 where
  pub id : ℕ
  pub status : Option UserStatus
  pub role_ids : Option (List ℕ)
  pub avatar_url : Option String
  pub phone : Option String
  pub job_title : Option String
  pub company : Option String
  pub updated_at : ℕ

-- getUserByID, in a transaction or not.
unfoldable pub get_user_detail : ℕ → Action UserDetail
unfolding get_user_by_id get_user_roles
get_user_detail id = do
  user ← get_user_by_id id
  roles ← get_user_roles id
  pure (record { user = user; roles = roles })

-- The columns of UpdateUserFields, with COALESCE.
abbrev pub with_fields : UpdateUserRow → User → User
with_fields row u = record u {
  status = or_kept row.status u.status;
  avatar_url = or_kept row.avatar_url u.avatar_url;
  phone = or_kept row.phone u.phone;
  job_title = or_kept row.job_title u.job_title;
  company = or_kept row.company u.company;
  updated_at = row.updated_at;
}

abbrev pub sets_field : UpdateUserRow → Bool
sets_field row =
    is_some row.status
    || is_some row.avatar_url
    || is_some row.phone
    || is_some row.job_title
    || is_some row.company

unfoldable pub update_user_fields : UpdateUserRow → Action (Unit {0})
update_user_fields row = when sets_field row then set_user row.id (with_fields row) else pure tt

abbrev pub has_number : List ℕ → ℕ → Bool
has_number ids id = exists_where (λ i. i == id) ids

unfoldable pub count_roles_by_ids : List ℕ → Action ℕ
count_roles_by_ids ids = statement λ d. (ok (count_where (λ r. has_number ids r.id) d.roles), d)

abbrev pub assignment_rows : ℕ → List ℕ → List UserRole
assignment_rows user ids = map (λ id. record { user_id = user; role_id = id }) ids

-- The assignments of a user outside the new set go, and those that are missing come.
abbrev pub replaced_roles : ℕ → List ℕ → List UserRole → List UserRole
replaced_roles user ids table =
    delete_where (λ a. a.user_id == user && not (has_number ids a.role_id)) table
    ++ assignment_rows user (select_where (λ id. not (has_role table user id)) ids)

-- The references to users and roles refuse an assignment of what does not exist.
abbrev pub reassigned : ℕ → List ℕ → Db → Result (Unit {0}) × Db
reassigned user ids d =
    if exists_where (has_id user) d.users
      && not (exists_where (λ id. not (exists_where (has_role_id id) d.roles)) ids)
    then (ok tt, record d { user_roles = replaced_roles user ids d.user_roles })
    else (err internal, d)

unfoldable pub replace_user_roles : ℕ → List ℕ → Action (Unit {0})
replace_user_roles user ids = statement (reassigned user ids)

unfoldable pub write_roles : ℕ → Option (List ℕ) → Action (Unit {0})
unfolding count_roles_by_ids replace_user_roles
write_roles user none = pure tt
write_roles user (some ids) = do
  found ← count_roles_by_ids ids
  raise_if (not (found == length ids)) role_not_found
  replace_user_roles user ids

unfoldable pub update_user_on_tx : UpdateUserRow → Action UserDetail
unfolding get_user_by_id update_user_fields write_roles get_user_detail
update_user_on_tx row = do
  get_user_by_id row.id
  update_user_fields row
  write_roles row.id row.role_ids
  get_user_detail row.id

unfoldable pub update_user_row : UpdateUserRow → Action UserDetail
unfolding update_user_on_tx
update_user_row row = transaction (update_user_on_tx row)
