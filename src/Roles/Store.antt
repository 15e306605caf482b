-- ===== src/Roles/Store.antt =====
-- The store of roles: internal/store/rolesrepo/roles.go over the statements of
-- internal/store/sql/roles.sql. DISTINCT and the orders are left to the tables, whose keys keep the
-- rows apart.
use wow_dashboard_api.Prelude.{
  ℕ, String, Bool, true, false, not, Option, none, some, List, [], ◌∷◌, ◌++◌, ◌==◌, ◌&&◌, ◌||◌, map,
  str_eq, is_some, if◌then◌else◌, find_where, select_where, exists_where, update_where,
  delete_where, count_where,
}
use wow_dashboard_api.Store.Schema.{Role, RolePermission, UserRole, Db}
use wow_dashboard_api.Store.Effect.{
  Action, Result, ok, err, role_not_found, name_conflict, role_in_use, internal, statement,
  transaction, pure, when◌then◌else◌, ◌>>◌,
}
use wow_dashboard_api.Rbac.{is_member}

-- domain.Role
pub record RoleDetail : Type 0 where
  pub role : Role
  pub permissions : List String
  pub user_count : ℕ

pub record CreateRoleRow : Type 0 where
  pub id : ℕ
  pub name : String
  pub description : String
  pub permissions : List String
  pub created_at : ℕ
  pub updated_at : ℕ

pub record UpdateRoleRow : Type 0 where
  pub id : ℕ
  pub name : Option String
  pub description : Option String
  pub permissions : Option (List String)
  pub updated_at : ℕ

abbrev pub has_role_id : ℕ → Role → Bool
has_role_id id r = r.id == id

abbrev pub grants : ℕ → RolePermission → Bool
grants role p = p.role_id == role

abbrev pub assigns : ℕ → UserRole → Bool
assigns role a = a.role_id == role

abbrev pub detail_of : Db → Role → RoleDetail
detail_of d r = record {
  role = r;
  permissions = map (λ p. p.permission) (select_where (grants r.id) d.role_permissions);
  user_count = count_where (assigns r.id) d.user_roles;
}

abbrev found_detail : Db → Option Role → Result RoleDetail
found_detail d none = err role_not_found
found_detail d (some r) = ok (detail_of d r)

unfoldable pub list_role_rows : Action (List RoleDetail)
list_role_rows = statement λ d. (ok (map (detail_of d) d.roles), d)

unfoldable pub get_role_by_id : ℕ → Action RoleDetail
get_role_by_id id = statement λ d. (found_detail d (find_where (has_role_id id) d.roles), d)

abbrev pub role_row : CreateRoleRow → Role
role_row input = record {
  id = input.id;
  name = input.name;
  description = input.description;
  is_system = false;
  created_at = input.created_at;
  updated_at = input.updated_at;
}

-- INSERT is refused by UNIQUE on the name, and by the primary key.
abbrev pub inserted_role : CreateRoleRow → Db → Result (Unit {0}) × Db
inserted_role input d =
    if exists_where (λ r. str_eq r.name input.name) d.roles
    then (err name_conflict, d)
    else (if exists_where (has_role_id input.id) d.roles
        then (err internal, d)
        else (ok tt, record d { roles = d.roles ++ role_row input ∷ [] }))

unfoldable pub insert_role : CreateRoleRow → Action (Unit {0})
insert_role input = statement (inserted_role input)

abbrev pub grant_rows : ℕ → List String → List RolePermission
grant_rows role permissions = map (λ p. record { role_id = role; permission = p }) permissions

abbrev pub holds : List RolePermission → ℕ → String → Bool
holds table role p = exists_where (λ g. g.role_id == role && str_eq g.permission p) table

abbrev pub all_distinct : List String → Bool
all_distinct [] = true
all_distinct (p ∷ ps) = not (is_member p ps) && all_distinct ps

-- INSERT … SELECT unnest: refused by the primary key of two columns and by the reference to roles.
abbrev pub granted : ℕ → List String → Db → Result (Unit {0}) × Db
granted role permissions d =
    if exists_where (has_role_id role) d.roles
      && all_distinct permissions
      && not (exists_where (λ p. holds d.role_permissions role p) permissions)
    then (ok tt, record d { role_permissions = d.role_permissions ++ grant_rows role permissions })
    else (err internal, d)

unfoldable pub add_role_permissions : ℕ → List String → Action (Unit {0})
add_role_permissions role permissions = statement (granted role permissions)

unfoldable pub create_role_on_tx : CreateRoleRow → Action RoleDetail
unfolding insert_role add_role_permissions get_role_by_id
create_role_on_tx input = do
  insert_role input
  add_role_permissions input.id input.permissions
  get_role_by_id input.id

unfoldable pub create_role_row : CreateRoleRow → Action RoleDetail
unfolding create_role_on_tx
create_role_row input = transaction (create_role_on_tx input)

abbrev pub or_kept : {A : Type 0} → Option A → A → A
or_kept none old = old
or_kept (some new) old = new

abbrev pub with_details : UpdateRoleRow → Role → Role
with_details input r = record r {
  name = or_kept input.name r.name;
  description = or_kept input.description r.description;
  updated_at = input.updated_at;
}

abbrev pub takes_name : UpdateRoleRow → Role → Bool
takes_name input r = elim input.name [
  | none ↦ false
  | some name ↦ str_eq r.name name && not (r.id == input.id)
]

-- UPDATE with COALESCE, refused by UNIQUE on the name of another role.
abbrev pub detailed : UpdateRoleRow → Db → Result (Unit {0}) × Db
detailed input d =
    if exists_where (has_role_id input.id) d.roles && exists_where (takes_name input) d.roles
    then (err name_conflict, d)
    else (
      ok tt,
      record d { roles = update_where (has_role_id input.id) (with_details input) d.roles },
    )

unfoldable pub update_role_details : UpdateRoleRow → Action (Unit {0})
update_role_details input = statement (detailed input)

-- The rows of a role outside the new set go, and those that are missing come.
abbrev pub replaced_permissions : ℕ → List String → List RolePermission → List RolePermission
replaced_permissions role permissions table =
    delete_where (λ g. g.role_id == role && not (is_member g.permission permissions)) table
    ++ grant_rows role (select_where (λ p. not (holds table role p)) permissions)

-- The reference to roles refuses a row of a role that does not exist.
abbrev pub regranted : ℕ → List String → Db → Result (Unit {0}) × Db
regranted role permissions d =
    if exists_where (has_role_id role) d.roles
    then (
      ok tt,
      record d { role_permissions = replaced_permissions role permissions d.role_permissions },
    )
    else (err internal, d)

unfoldable pub replace_role_permissions : ℕ → List String → Action (Unit {0})
replace_role_permissions role permissions = statement (regranted role permissions)

unfoldable pub write_details : UpdateRoleRow → Action (Unit {0})
unfolding update_role_details
write_details input =
    when is_some input.name || is_some input.description then update_role_details input else pure tt

unfoldable pub write_permissions : ℕ → Option (List String) → Action (Unit {0})
unfolding replace_role_permissions
write_permissions role none = pure tt
write_permissions role (some permissions) = replace_role_permissions role permissions

unfoldable pub update_role_on_tx : UpdateRoleRow → Action RoleDetail
unfolding write_details write_permissions get_role_by_id
update_role_on_tx input = do
  write_details input
  write_permissions input.id input.permissions
  get_role_by_id input.id

unfoldable pub update_role_row : UpdateRoleRow → Action RoleDetail
unfolding update_role_on_tx
update_role_row input = transaction (update_role_on_tx input)

abbrev pub is_deletable : Db → ℕ → Role → Bool
is_deletable d id r = r.id == id && not r.is_system && not (exists_where (assigns id) d.user_roles)

-- The permissions of a deleted role go with it (ON DELETE CASCADE); no user has it.
abbrev pub deleted_role : ℕ → Db → Result (Unit {0}) × Db
deleted_role id d =
    if exists_where (is_deletable d id) d.roles
    then (
      ok tt,
      record d {
        roles = delete_where (is_deletable d id) d.roles;
        role_permissions = delete_where (grants id) d.role_permissions;
      },
    )
    else (err role_in_use, d)

unfoldable pub delete_role_row : ℕ → Action (Unit {0})
delete_role_row id = statement (deleted_role id)
