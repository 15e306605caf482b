-- ===== src/Auth/Users.antt =====
-- The store of accounts: internal/store/authrepo/users.go over the statements of
-- internal/store/sql/users.sql and user_roles.sql.
use wow_dashboard_api.Prelude.{
  ℕ, ◌+◌, String, Bool, false, Option, none, some, List, [], ◌∷◌, ◌++◌, ◌==◌, ◌&&◌, str_eq, ltb,
  leb, map, if◌then◌else◌, find_where, select_where, exists_where, update_where,
}
use wow_dashboard_api.Prelude.Text.{to_lower}
use wow_dashboard_api.Store.Schema.{User, UserStatus, Db, Role, UserRole}
use wow_dashboard_api.Store.Effect.{
  Action, Result, ok, err, internal, user_not_found, email_already_exists, role_not_found,
  statement,
}

-- domain.CreateUserInput
pub record CreateUserInput : Type 0 where
  pub id : ℕ
  pub email : String
  pub display_name : String
  pub password_hash : String
  pub status : UserStatus
  pub created_at : ℕ
  pub updated_at : ℕ

abbrev pub user_row : CreateUserInput → User
user_row input = record {
  id = input.id;
  email = to_lower input.email;
  display_name = input.display_name;
  password_hash = input.password_hash;
  status = input.status;
  created_at = input.created_at;
  updated_at = input.updated_at;
  failed_login_count = 0;
  locked_until = none;
  email_verified_at = none;
  avatar_url = "";
  phone = "";
  job_title = "";
  company = "";
  last_login_at = none;
  mfa_enabled = false;
  mfa_confirmed_at = none;
}

-- INSERT is refused by UNIQUE on the address, and by the primary key.
unfoldable pub create_user : CreateUserInput → Action User
create_user input = statement λ d.
    if exists_where (λ u. str_eq u.email (to_lower input.email)) d.users
    then (err email_already_exists, d)
    else (if exists_where (λ u. u.id == input.id) d.users
        then (err internal, d)
        else (ok (user_row input), record d { users = d.users ++ user_row input ∷ [] }))

abbrev pub found_user : Option User → Result User
found_user none = err user_not_found
found_user (some u) = ok u

abbrev pub has_id : ℕ → User → Bool
has_id id u = u.id == id

abbrev pub has_email : String → User → Bool
has_email email u = str_eq u.email (to_lower email)

-- GetUserByID and GetUserByIDForAuth read the same row.
unfoldable pub get_user_by_id : ℕ → Action User
get_user_by_id id = statement λ d. (found_user (find_where (has_id id) d.users), d)

unfoldable pub get_user_by_email_for_auth : String → Action User
get_user_by_email_for_auth email =
    statement λ d. (found_user (find_where (has_email email) d.users), d)

-- The columns that RegisterLoginFailure sets.
abbrev pub count_failure : ℕ → ℕ → ℕ → User → User
count_failure max_attempts lock_until updated_at u =
    if leb max_attempts (u.failed_login_count + 1)
    then record u {
      failed_login_count = 0;
      locked_until = some lock_until;
      updated_at = updated_at;
    }
    else record u { failed_login_count = u.failed_login_count + 1; updated_at = updated_at }

abbrev pub is_after : Option ℕ → ℕ → Bool
is_after none now = false
is_after (some t) now = ltb now t

abbrev pub locked_now : ℕ → Option User → Result Bool
locked_now now none = err user_not_found
locked_now now (some u) = ok (is_after u.locked_until now)

-- RETURNING locked_until of the updated row, compared with `now`.
unfoldable pub register_login_failure : ℕ → ℕ → ℕ → ℕ → Action Bool
register_login_failure user max_attempts lock_until now = statement λ d.
    let users = update_where (has_id user) (count_failure max_attempts lock_until now) d.users in
    (locked_now now (find_where (has_id user) users), record d { users = users })

-- UPDATE users … WHERE id
abbrev pub set_user : ℕ → (User → User) → Action (Unit {0})
set_user user f = statement λ d. (ok tt, record d { users = update_where (has_id user) f d.users })

abbrev pub clear_failures : ℕ → User → User
clear_failures now u = record u {
  failed_login_count = 0;
  locked_until = none;
  last_login_at = some now;
  updated_at = now;
}

unfoldable pub clear_login_failures : ℕ → ℕ → Action (Unit {0})
clear_login_failures user now = set_user user (clear_failures now)

abbrev pub with_password : String → ℕ → User → User
with_password hash now u = record u { password_hash = hash; updated_at = now }

unfoldable pub update_user_password : ℕ → String → ℕ → Action (Unit {0})
update_user_password user hash now = set_user user (with_password hash now)

abbrev pub with_email_verified : ℕ → ℕ → User → User
with_email_verified verified_at now u = record u {
  email_verified_at = some verified_at;
  updated_at = now;
}

unfoldable pub set_email_verified : ℕ → ℕ → ℕ → Action (Unit {0})
set_email_verified user verified_at now = set_user user (with_email_verified verified_at now)

abbrev pub found_role : Option Role → Result Role
found_role none = err role_not_found
found_role (some r) = ok r

unfoldable pub get_role_by_name : String → Action Role
get_role_by_name name =
    statement λ d. (found_role (find_where (λ r. str_eq r.name name) d.roles), d)

abbrev pub is_assignment : ℕ → ℕ → UserRole → Bool
is_assignment user role a = a.user_id == user && a.role_id == role

-- The user and the role that an assignment refers to.
abbrev pub can_assign : ℕ → ℕ → Db → Bool
can_assign user role d =
    exists_where (λ u. u.id == user) d.users && exists_where (λ r. r.id == role) d.roles

-- INSERT … ON CONFLICT DO NOTHING; the insertion is refused by the references.
unfoldable pub add_user_role : ℕ → ℕ → Action (Unit {0})
add_user_role user role = statement λ d.
    if exists_where (is_assignment user role) d.user_roles
    then (ok tt, d)
    else if can_assign user role d
    then (
      ok tt,
      record d { user_roles = d.user_roles ++ record { user_id = user; role_id = role } ∷ [] },
    )
    else (err internal, d)

abbrev pub has_role : List UserRole → ℕ → ℕ → Bool
has_role assignments user role = exists_where (is_assignment user role) assignments

-- ListUserRoles; the order by name is left to the table's.
abbrev pub role_names : ℕ → Db → List String
role_names user d = map (λ r. r.name) (select_where (λ r. has_role d.user_roles user r.id) d.roles)

unfoldable pub get_user_roles : ℕ → Action (List String)
get_user_roles user = statement λ d. (ok (role_names user d), d)

-- ListUserPermissions; SELECT DISTINCT is left to the reader, which builds a set.
abbrev pub permissions_of : ℕ → Db → List String
permissions_of user d =
    map (λ p. p.permission)
      (select_where (λ p. has_role d.user_roles user p.role_id) d.role_permissions)

unfoldable pub get_user_permissions : ℕ → Action (List String)
get_user_permissions user = statement λ d. (ok (permissions_of user d), d)
