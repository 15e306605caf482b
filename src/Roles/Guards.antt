-- ===== src/Roles/Guards.antt =====
-- What the management of roles keeps: internal/roles/service/service.go. An invariant of the
-- database is given by the statements that the operations run; the operations keep it.
pub mod Requests
pub mod System
use mathlib.Core.Path.{subst}
use wow_dashboard_api.Prelude.{
  ℕ, ◌≡◌, ◌≢◌, refl, ap, sym, ◌∙◌, ◌⊎◌, inl, inr, String, Bool, true, false, not, ◌&&◌, ◌||◌, ◌==◌,
  Option, none, some, List, [], ◌∷◌, ◌++◌, arith, ltb, is_none, is_some, if◌then◌else◌, find_where,
  exists_where, update_where, delete_where, Option-cases, Bool-cases, find_where-update_where,
  find_where-update_where_missing, str_eq,
}
use wow_dashboard_api.Store.Schema.{Role, UserRole, SystemEvent, Db}
use wow_dashboard_api.Store.Effect.{
  Action, Env, World, Error, Result, ok, err, Result-cases, pure, raise_if, or_else, called, ◌>>=◌,
  ◌>>◌, system_role, role_in_use, invalid_input, bind-holds, bind-cases, transaction-holds,
  statement-holds, name_conflict, internal,
}
use wow_dashboard_api.Store.Mutation.{
  Event, in_unit_of_work, step_by_step, in_unit_of_work-holds, step_by_step-holds,
}
use wow_dashboard_api.Roles.Store.{
  RoleDetail, CreateRoleRow, UpdateRoleRow, inserted_role, granted, detailed, regranted,
  deleted_role, all_distinct, holds, takes_name, has_role_id, role_row, grant_rows, with_details,
  replaced_permissions, is_deletable, assigns, grants, insert_role, add_role_permissions,
  get_role_by_id, create_role_on_tx, create_role_row, update_role_details, replace_role_permissions,
  write_details, write_permissions, update_role_on_tx, update_role_row, delete_role_row,
}
use wow_dashboard_api.Roles.Service.{RoleService, CreateRoleInput, UpdateRoleInput, deletion}
use wow_dashboard_api.Roles.Permissions.{IsAssignable}

abbrev pub is_system_row : Option Role → Bool
is_system_row none = false
is_system_row (some r) = r.is_system

abbrev pub is_system_id : List Role → ℕ → Bool
is_system_id roles id = is_system_row (find_where (has_role_id id) roles)

-- The statements keep `P`: those that write to a role write to one that is no system role, and those
-- that grant permissions grant assignable ones.
pub record RoleInvariant (P : Db → Type 0) : Type 0 where
  pub blind : (d : Db) (events : List SystemEvent) → P d → P (record d { system_events = events })
  pub on_insert :
      (d : Db) (row : CreateRoleRow)
      → exists_where (has_role_id row.id) d.roles ≡ false
      → P d
      → P (record d { roles = d.roles ++ role_row row ∷ [] })
  pub on_grant :
      (d : Db) (id : ℕ) (permissions : List String)
      → is_system_id d.roles id ≡ false
      → IsAssignable permissions
      → P d
      → P (record d { role_permissions = d.role_permissions ++ grant_rows id permissions })
  pub on_details :
      (d : Db) (row : UpdateRoleRow)
      → is_system_id d.roles row.id ≡ false
      → P d
      → P (record d { roles = update_where (has_role_id row.id) (with_details row) d.roles })
  pub on_replace :
      (d : Db) (id : ℕ) (permissions : List String)
      → is_system_id d.roles id ≡ false
      → IsAssignable permissions
      → P d
      → P (record d { role_permissions = replaced_permissions id permissions d.role_permissions })
  pub on_delete :
      (d : Db) (id : ℕ)
      → is_system_id d.roles id ≡ false
      → exists_where (assigns id) d.user_roles ≡ false
      → P d
      → P (record d {
        roles = delete_where (is_deletable d id) d.roles;
        role_permissions = delete_where (grants id) d.role_permissions;
      })

pub get_role_by_id-reads : (id : ℕ) (env : Env) (w : World) → (get_role_by_id id env w).1 ≡ called w
unfolding get_role_by_id
get_role_by_id-reads id env w = ground arith

-- The role that is read tells whether it is a system role.
pub get_role_by_id-tells :
    (id : ℕ) (env : Env) (w : World) (r : RoleDetail)
    → (get_role_by_id id env w).0 ≡ ok r
    → is_system_id w.db.roles id ≡ r.role.is_system
unfolding get_role_by_id
get_role_by_id-tells id env w r e = elim (Option-cases (find_where (has_role_id id) w.db.roles)) [
  | inl missing ↦ absurd (ground arith)
  | inr (found, e') ↦ ground arith
]

-- The new role is no system role.
is_system_id_inserted :
    (row : CreateRoleRow) (roles : List Role)
    → exists_where (has_role_id row.id) roles ≡ false
    → is_system_id (roles ++ role_row row ∷ []) row.id ≡ false
is_system_id_inserted row [] e = ground arith
is_system_id_inserted row (r ∷ roles) e = ground (arith, is_system_id_inserted row roles)

is_system_id-details :
    (row : UpdateRoleRow) (roles : List Role) (id : ℕ)
    → is_system_id (update_where (has_role_id row.id) (with_details row) roles) id
      ≡ is_system_id roles id
is_system_id-details row [] id = refl
is_system_id-details row (r ∷ roles) id = ground (arith, is_system_id-details row roles id)

-- A role that is deleted has no user.
is_deletable_unassigned :
    (d : Db) (id : ℕ) (roles : List Role)
    → exists_where (is_deletable d id) roles ≡ true
    → exists_where (assigns id) d.user_roles ≡ false
is_deletable_unassigned d id [] e = absurd (ground arith)
is_deletable_unassigned d id (r ∷ roles) e = ground (arith, is_deletable_unassigned d id roles)

insert_role-custom :
    (row : CreateRoleRow) (env : Env) (w : World)
    → (insert_role row env w).0 ≡ ok tt
    → is_system_id (insert_role row env w).1.db.roles row.id ≡ false
unfolding insert_role
insert_role-custom row env w e = let custom = is_system_id_inserted row w.db.roles in ground arith

update_role_details-custom :
    (row : UpdateRoleRow) (env : Env) (w : World) (id : ℕ)
    → is_system_id (update_role_details row env w).1.db.roles id ≡ is_system_id w.db.roles id
unfolding update_role_details
update_role_details-custom row env w id =
    let same = is_system_id-details row w.db.roles id in ground arith

replace_role_permissions-roles :
    (role : ℕ) (permissions : List String) (env : Env) (w : World)
    → (replace_role_permissions role permissions env w).1.db.roles ≡ w.db.roles
unfolding replace_role_permissions
replace_role_permissions-roles role permissions env w = ground arith

-- Permissions that may be left out are assignable.
abbrev pub IsGiven : Option (List String) → Type 0
IsGiven none = Unit
IsGiven (some permissions) = IsAssignable permissions

module _ (P : Db → Type 0) (keeps : RoleInvariant P) where
  insert_role-holds :
      (row : CreateRoleRow) (env : Env) (w : World) → P w.db → P (insert_role row env w).1.db
  unfolding insert_role
  insert_role-holds row env w h =
      statement-holds P (inserted_role row) env w h
        (elim (Bool-cases (exists_where (λ r. str_eq r.name row.name) w.db.roles)) [
          | inl taken ↦ rw taken h
          | inr free ↦ elim (Bool-cases (exists_where (has_role_id row.id) w.db.roles)) [
            | inl there ↦ rw (free, there) h
            | inr fresh ↦ rw (free, fresh) (keeps.on_insert w.db row fresh h)
          ]
        ])

  add_role_permissions-holds :
      (id : ℕ) (permissions : List String) (env : Env) (w : World)
      → is_system_id w.db.roles id ≡ false
      → IsAssignable permissions
      → P w.db
      → P (add_role_permissions id permissions env w).1.db
  unfolding add_role_permissions
  add_role_permissions-holds id permissions env w custom fits h =
      statement-holds P (granted id permissions) env w h
        (elim (Bool-cases (
          exists_where (has_role_id id) w.db.roles
          && all_distinct permissions
          && not (exists_where (λ p. holds w.db.role_permissions id p) permissions))) [
            | inl e ↦ rw e (keeps.on_grant w.db id permissions custom fits h)
            | inr e ↦ rw e (h)
          ])

  update_role_details-holds :
      (row : UpdateRoleRow) (env : Env) (w : World)
      → is_system_id w.db.roles row.id ≡ false
      → P w.db
      → P (update_role_details row env w).1.db
  unfolding update_role_details
  update_role_details-holds row env w custom h =
      statement-holds P (detailed row) env w h
        (elim (Bool-cases (
          exists_where (has_role_id row.id) w.db.roles
          && exists_where (takes_name row) w.db.roles)) [
            | inl e ↦ rw e (h)
            | inr e ↦ rw e (keeps.on_details w.db row custom h)
          ])

  replace_role_permissions-holds :
      (id : ℕ) (permissions : List String) (env : Env) (w : World)
      → is_system_id w.db.roles id ≡ false
      → IsAssignable permissions
      → P w.db
      → P (replace_role_permissions id permissions env w).1.db
  unfolding replace_role_permissions
  replace_role_permissions-holds id permissions env w custom fits h =
      statement-holds P (regranted id permissions) env w h
        (elim (Bool-cases (exists_where (has_role_id id) w.db.roles)) [
          | inl e ↦ rw e (keeps.on_replace w.db id permissions custom fits h)
          | inr e ↦ rw e (h)
        ])

  pub delete_role_row-holds :
      (id : ℕ) (env : Env) (w : World)
      → is_system_id w.db.roles id ≡ false
      → P w.db
      → P (delete_role_row id env w).1.db
  unfolding delete_role_row
  delete_role_row-holds id env w custom h =
      statement-holds P (deleted_role id) env w h
        (elim (Bool-cases (exists_where (is_deletable w.db id) w.db.roles)) [
          | inl e ↦
              rw e (keeps.on_delete w.db id custom (is_deletable_unassigned w.db id w.db.roles e) h)
          | inr e ↦ rw e (h)
        ])

  get_role_by_id-holds :
      (id : ℕ) (env : Env) (w : World) → P w.db → P (get_role_by_id id env w).1.db
  get_role_by_id-holds id env w h = subst (λ v. P v.db) (sym (get_role_by_id-reads id env w)) h

  -- Create, in its transaction.
  pub create_role_on_tx-holds :
      (row : CreateRoleRow) (env : Env) (w : World)
      → IsAssignable row.permissions
      → P w.db
      → P (create_role_on_tx row env w).1.db
  unfolding create_role_on_tx
  create_role_on_tx-holds row env w fits h =
      bind-cases (λ v. P v.db) (insert_role row)
        (λ _. add_role_permissions row.id row.permissions >> get_role_by_id row.id) env w
        (λ e failed. insert_role-holds row env w h)
        (λ _ done.
          bind-holds (λ v. P v.db) (add_role_permissions row.id row.permissions)
            (λ _. get_role_by_id row.id) env (insert_role row env w).1
            (add_role_permissions-holds row.id row.permissions env (insert_role row env w).1
              (insert_role-custom row env w done) fits (insert_role-holds row env w h))
            (λ _ v kept. get_role_by_id-holds row.id env v kept))

  -- What holds while a role that is no system role is updated.
  abbrev pub Updating : ℕ → Db → Type 0
  Updating id d = P d × (is_system_id d.roles id ≡ false)

  write_details-holds :
      (row : UpdateRoleRow) (env : Env) (w : World)
      → Updating row.id w.db
      → Updating row.id (write_details row env w).1.db
  unfolding write_details
  write_details-holds row env w (h, custom) =
      elim (Bool-cases (is_some row.name || is_some row.description)) [
        | inr nothing ↦ rw nothing (h, custom)
        | inl something ↦ rw something (
          update_role_details-holds row env w custom h,
          update_role_details-custom row env w row.id ∙ custom,
        )
      ]

  write_permissions-holds :
      (id : ℕ) (permissions : Option (List String)) (env : Env) (w : World)
      → IsGiven permissions
      → Updating id w.db
      → Updating id (write_permissions id permissions env w).1.db
  unfolding write_permissions
  write_permissions-holds id none env w fits h = h
  write_permissions-holds id (some permissions) env w fits (h, custom) = (
    replace_role_permissions-holds id permissions env w custom fits h,
    ap (λ roles. is_system_id roles id) (replace_role_permissions-roles id permissions env w)
        ∙ custom,
  )

  pub update_role_on_tx-holds :
      (row : UpdateRoleRow) (env : Env) (w : World)
      → IsGiven row.permissions
      → Updating row.id w.db
      → Updating row.id (update_role_on_tx row env w).1.db
  unfolding update_role_on_tx
  update_role_on_tx-holds row env w fits h =
      bind-holds (λ v. Updating row.id v.db) (write_details row)
        (λ _. write_permissions row.id row.permissions >> get_role_by_id row.id) env w
        (write_details-holds row env w h)
        (λ _ v h'.
          bind-holds (λ v'. Updating row.id v'.db) (write_permissions row.id row.permissions)
            (λ _. get_role_by_id row.id) env v
            (write_permissions-holds row.id row.permissions env v fits h')
            (λ _ v' h''.
              subst (λ x. Updating row.id x.db) (sym (get_role_by_id-reads row.id env v')) h''))
