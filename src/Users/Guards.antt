-- ===== src/Users/Guards.antt =====
-- What an update of an account by another has checked before it writes: UpdateUser of
-- internal/users/service/service.go. A property of the database that the two writes keep is kept by
-- the request.
pub mod Requests
pub mod Safety
use mathlib.Core.Path.{subst}
use wow_dashboard_api.Prelude.{
  ℕ, ◌+◌, ◌≡◌, refl, ap, sym, ◌∙◌, inl, inr, String, Bool, true, false, not, ◌&&◌, ◌==◌, Option,
  none, some, List, [], ◌∷◌, arith, length, update_where, Option-cases, Bool-cases, exists_where,
}
use wow_dashboard_api.Prelude.Text.{trim_space}
use wow_dashboard_api.Store.Schema.{SystemEvent, UserStatus, Db}
use wow_dashboard_api.Store.Effect.{
  Action, Env, World, Error, Result, ok, err, Result-cases, pure, raise_if, or_else, called, ◌>>=◌,
  ◌>>◌, role_not_found, insufficient_privilege, self_modification, invalid_input, bind-ok,
  bind-holds, bind-cases, transaction-holds, statement-holds, raise_if-ok, or_else-ok,
}
use wow_dashboard_api.Store.Mutation.{commit, commit-holds}
use wow_dashboard_api.Auth.Users.{has_id, role_names, get_user_by_id, get_user_roles, set_user}
use wow_dashboard_api.Auth.Service.{now}
use wow_dashboard_api.Projects.Operations.{parse_uuid_field}
use wow_dashboard_api.Roles.Store.{has_role_id}
use wow_dashboard_api.Roles.Service.{checked_field}
use wow_dashboard_api.Roles.Guards.Requests.{parse_uuid_field-reads, checked_field-holds}
use wow_dashboard_api.Users.Store.{
  UserDetail, UpdateUserRow, with_fields, sets_field, update_user_fields, replaced_roles,
  reassigned, replace_user_roles, count_roles_by_ids, write_roles, get_user_detail,
  update_user_on_tx, update_user_row, has_number,
}
use wow_dashboard_api.Users.Service.{
  UserService, UpdateUserInput, apply_update, update_normalized, fetch_user, user_missing,
  map_update_user_error, build_user_updated_event, normalize_fields, update_other, update_user,
  can_grant, grants_admin, has_role_named, changes_nothing, normalize_status, parse_role_ids,
  normalize_profile_field,
}

-- The writes for this row keep `P`.
pub record UserLaws (P : Db → Type 0) (row : UpdateUserRow) : Type 0 where
  pub blind : (d : Db) (events : List SystemEvent) → P d → P (record d { system_events = events })
  pub on_fields :
      (d : Db)
      → P d
      → P (record d { users = update_where (has_id row.id) (with_fields row) d.users })
  pub on_roles :
      (d : Db) (ids : List ℕ)
      → row.role_ids ≡ some ids
      → P d
      → P (record d { user_roles = replaced_roles row.id ids d.user_roles })

get_user_by_id-reads : (id : ℕ) (env : Env) (w : World) → (get_user_by_id id env w).1.db ≡ w.db
unfolding get_user_by_id
get_user_by_id-reads id env w = ground arith

pub get_user_detail-reads :
    (id : ℕ) (env : Env) (w : World) → (get_user_detail id env w).1.db ≡ w.db
unfolding get_user_detail get_user_by_id get_user_roles
get_user_detail-reads id env w = ground arith

pub get_user_detail-roles :
    (id : ℕ) (env : Env) (w : World) (u : UserDetail)
    → (get_user_detail id env w).0 ≡ ok u
    → u.roles ≡ role_names id w.db
unfolding get_user_detail get_user_by_id get_user_roles
get_user_detail-roles id env w u e = ground arith

count_roles_by_ids-reads :
    (ids : List ℕ) (env : Env) (w : World) → (count_roles_by_ids ids env w).1.db ≡ w.db
unfolding count_roles_by_ids
count_roles_by_ids-reads ids env w = ground arith

module _ (P : Db → Type 0) (row : UpdateUserRow) (laws : UserLaws P row) where
  update_user_fields-holds :
      (env : Env) (w : World) → P w.db → P (update_user_fields row env w).1.db
  unfolding update_user_fields
  update_user_fields-holds env w h = elim (Bool-cases (sets_field row)) [
    | inr nothing ↦ rw nothing h
    | inl something ↦ rw something (
        statement-holds P
          (λ d.
            (ok tt, record d { users = update_where (has_id row.id) (with_fields row) d.users }))
          env w h (laws.on_fields w.db h))
  ]

  replace_user_roles-holds :
      (ids : List ℕ) (env : Env) (w : World)
      → row.role_ids ≡ some ids
      → P w.db
      → P (replace_user_roles row.id ids env w).1.db
  unfolding replace_user_roles
  replace_user_roles-holds ids env w given h =
      statement-holds P (reassigned row.id ids) env w h
        (elim (Bool-cases (
          exists_where (has_id row.id) w.db.users
          && not (exists_where (λ id. not (exists_where (has_role_id id) w.db.roles)) ids))) [
            | inl there ↦ rw there (laws.on_roles w.db ids given h)
            | inr missing ↦ rw missing h
          ])

  write_roles-holds :
      (ids : Option (List ℕ)) (env : Env) (w : World)
      → row.role_ids ≡ ids
      → P w.db
      → P (write_roles row.id ids env w).1.db
  unfolding write_roles
  write_roles-holds none env w given h = h
  write_roles-holds (some ids) env w given h =
      bind-holds (λ v. P v.db) (count_roles_by_ids ids)
        (λ found.
          raise_if (not (found == length ids)) role_not_found >> replace_user_roles row.id ids)
        env w (subst P (sym (count_roles_by_ids-reads ids env w)) h)
        (λ found v h'.
          bind-holds (λ v'. P v'.db) (raise_if (not (found == length ids)) role_not_found)
            (λ _. replace_user_roles row.id ids) env v h'
            (λ _ v' h''. replace_user_roles-holds ids env v' given h''))

  update_user_on_tx-holds : (env : Env) (w : World) → P w.db → P (update_user_on_tx row env w).1.db
  unfolding update_user_on_tx
  update_user_on_tx-holds env w h =
      bind-holds (λ v. P v.db) (get_user_by_id row.id)
        (λ _. update_user_fields row >> (write_roles row.id row.role_ids >> get_user_detail row.id))
        env w (subst P (sym (get_user_by_id-reads row.id env w)) h)
        (λ _ v h₁.
          bind-holds (λ v'. P v'.db) (update_user_fields row)
            (λ _. write_roles row.id row.role_ids >> get_user_detail row.id) env v
            (update_user_fields-holds env v h₁)
            (λ _ v' h₂.
              bind-holds (λ v''. P v''.db) (write_roles row.id row.role_ids)
                (λ _. get_user_detail row.id) env v' (write_roles-holds row.role_ids env v' refl h₂)
                (λ _ v'' h₃. subst P (sym (get_user_detail-reads row.id env v'')) h₃)))

  pub apply_update-holds :
      (s : UserService) (actor : ℕ) (env : Env) (w : World)
      → P w.db
      → P (apply_update s actor row env w).1.db
  unfolding apply_update update_user_row
  apply_update-holds s actor env w h =
      commit-holds P s.unit_of_work s.audit_recorder map_update_user_error (update_user_on_tx row)
        (update_user_row row) (build_user_updated_event actor row) env w laws.blind
        (λ v same. update_user_on_tx-holds env v (subst P (sym same) h))
        (λ v same.
          transaction-holds P (update_user_on_tx row) env v (subst P (sym same) h)
            (update_user_on_tx-holds env (called v) (subst P (sym same) h)))
        h
