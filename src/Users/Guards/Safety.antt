-- ===== src/Users/Guards/Safety.antt =====
-- Whom an update can reach: UpdateUser of internal/users/service/service.go.
use mathlib.Core.Path.{subst}
use wow_dashboard_api.Prelude.{
  ℕ, ◌≡◌, ◌≢◌, refl, ap, sym, ◌∙◌, ◌⊎◌, inl, inr, Bool, true, false, not, ◌&&◌, ◌||◌, ◌==◌, some,
  List, [], ◌∷◌, map, arith, str_eq, find_where, select_where, exists_where, delete_where,
  find_where-update_where_ne, select_where-delete_where_ne, select_where-append_none,
  select_where-delete_where_none, Bool-cases,
}
use wow_dashboard_api.Prelude.Text.{trim_space}
use wow_dashboard_api.Store.Schema.{UserRole, Role, Db}
use wow_dashboard_api.Store.Effect.{Env, World}
use wow_dashboard_api.Auth.Users.{has_id, has_role, role_names}
use wow_dashboard_api.Roles.Store.{has_role_id, assigns}
use wow_dashboard_api.Users.Store.{UpdateUserRow, with_fields, assignment_rows, has_number}
use wow_dashboard_api.Users.Service.{
  UserService, UpdateUserInput, update_user, can_grant, grants_admin, has_role_named,
  system_admin_role_id,
}
use wow_dashboard_api.Users.Guards.{UserLaws}
use wow_dashboard_api.Users.Guards.Requests.{update_user-holds}

abbrev pub belongs_to : ℕ → UserRole → Bool
belongs_to user a = a.user_id == user

-- The account of this identifier and its roles are as they were.
abbrev pub IsUntouched : ℕ → Db → Db → Type 0
IsUntouched id d₀ d =
    (find_where (has_id id) d.users ≡ find_where (has_id id) d₀.users)
    × (select_where (belongs_to id) d.user_roles ≡ select_where (belongs_to id) d₀.user_roles)

exists_where-assignment_rows :
    (id user : ℕ) (ids : List ℕ)
    → id ≢ user
    → exists_where (belongs_to id) (assignment_rows user ids) ≡ false
exists_where-assignment_rows id user [] ne = refl
exists_where-assignment_rows id user (i ∷ ids) ne =
    ground (arith, exists_where-assignment_rows id user ids ne)

-- A write to another account.
IsUntouched-UserLaws :
    (id : ℕ) (d₀ : Db) (row : UpdateUserRow) → id ≢ row.id → UserLaws (IsUntouched id d₀) row
IsUntouched-UserLaws id d₀ row ne = record {
  blind = λ d events h. h;
  on_fields = λ d h. (
    find_where-update_where_ne (has_id id) (has_id row.id) (λ u mine. ground arith)
          (with_fields row) (λ u. refl) d.users
        ∙ h.0,
    h.1,
  );
  on_roles = λ d ids given h. (
    h.0,
    select_where-append_none (belongs_to id)
          (delete_where (λ a. a.user_id == row.id && not (has_number ids a.role_id)) d.user_roles)
          (assignment_rows row.id (select_where (λ i. not (has_role d.user_roles row.id i)) ids))
          (exists_where-assignment_rows id row.id
            (select_where (λ i. not (has_role d.user_roles row.id i)) ids) ne)
        ∙ select_where-delete_where_ne (belongs_to id)
            (λ a. a.user_id == row.id && not (has_number ids a.role_id)) (λ a mine. ground arith)
            d.user_roles
        ∙ h.1,
  );
}

-- Whatever the request, its answer and what fails on the way: an update touches no account but its
-- target, and not the actor's own either.
pub update_user-IsUntouched :
    (s : UserService) (input : UpdateUserInput) (env : Env) (w : World) (id : ℕ)
    → (env.parse_uuid (trim_space input.target_user_id) ≢ some id)
      ⊎ (env.parse_uuid (trim_space input.actor_user_id) ≡ some id)
    → IsUntouched id w.db (update_user s input env w).1.db
update_user-IsUntouched s input env w id outside =
    update_user-holds (IsUntouched id w.db) s input env w
      (λ row (actor, is_actor, is_target, apart, permitted, unguarded).
        IsUntouched-UserLaws id w.db row (λ same. elim outside [
          | inl other ↦ other (is_target ∙ ap some (sym same))
          | inr own ↦ (let agreed = sym own ∙ is_actor in ground arith)
        ]))
      (refl, refl)

or_true : (b : Bool) → (b || true) ≡ true
or_true b = ground arith

-- The role of the administrators is named by its user.
has_role_named-role_names :
    (assignments : List UserRole) (user role : ℕ) (roles : List Role) (r : Role)
    → find_where (has_role_id role) roles ≡ some r
    → str_eq (trim_space r.name) "admin" ≡ true
    → has_role assignments user role ≡ true
    → has_role_named "admin"
        (map (λ r. r.name) (select_where (λ r. has_role assignments user r.id) roles))
      ≡ true
has_role_named-role_names assignments user role [] r found named has = absurd (ground arith)
has_role_named-role_names assignments user role (x ∷ roles) r found named has =
    let rest = has_role_named-role_names assignments user role roles r in
    elim (Bool-cases (x.id == role)) [
      | inl here ↦
          let same : x ≡ r = ground arith in
          let number : role ≡ x.id = ground arith in
          let has_x : has_role assignments user x.id ≡ true =
            subst (λ i. has_role assignments user i ≡ true) number has in
          let named_x : str_eq (trim_space x.name) "admin" ≡ true =
            subst (λ y. str_eq (trim_space y.name) "admin" ≡ true) (sym same) named in
          rw (has_x, named_x) refl
      | inr elsewhere ↦
          let later = rest (ground arith) named has in
          elim (Bool-cases (has_role assignments user x.id)) [
            | inl has_x ↦ rw (has_x, later) (or_true (str_eq (trim_space x.name) "admin"))
            | inr has_none ↦ rw has_none later
          ]
    ]

-- Who has a role, read from the assignments of that role.
has_role-assigns :
    (table : List UserRole) (user role : ℕ)
    → has_role table user role ≡ exists_where (belongs_to user) (select_where (assigns role) table)
has_role-assigns [] user role = refl
has_role-assigns (a ∷ table) user role = ground (arith, has_role-assigns table user role)

-- Who has the administrator role, and the accounts of those who have it, are as they were.
abbrev pub AdminsKept : Db → Db → Type 0
AdminsKept d₀ d =
    (select_where (assigns system_admin_role_id) d.user_roles
      ≡ select_where (assigns system_admin_role_id) d₀.user_roles)
    × ((id : ℕ) → has_role d₀.user_roles id system_admin_role_id ≡ true → IsUntouched id d₀ d)

assignment_rows_other :
    (role user : ℕ) (p : ℕ → Bool) (ids : List ℕ)
    → has_number ids role ≡ false
    → exists_where (assigns role) (assignment_rows user (select_where p ids)) ≡ false
assignment_rows_other role user p [] e = refl
assignment_rows_other role user p (id ∷ ids) e =
    ground (arith, assignment_rows_other role user p ids)

-- Deleting assignments of a user who does not have the role.
deletes_no_assignment :
    (role user : ℕ) (ids : List ℕ) (table : List UserRole)
    → has_role table user role ≡ false
    → exists_where
        (λ a. assigns role a && (a.user_id == user && not (has_number ids a.role_id)))
        table
      ≡ false
deletes_no_assignment role user ids [] e = refl
deletes_no_assignment role user ids (a ∷ table) e =
    ground (arith, deletes_no_assignment role user ids table)

-- A write to an account that is no administrator's, with roles that are not the administrators'.
AdminsKept-UserLaws :
    (d₀ : Db) (row : UpdateUserRow)
    → has_role d₀.user_roles row.id system_admin_role_id ≡ false
    → grants_admin row.role_ids ≡ false
    → UserLaws (AdminsKept d₀) row
AdminsKept-UserLaws d₀ row ordinary modest =
    let apart : (id : ℕ) → has_role d₀.user_roles id system_admin_role_id ≡ true → id ≢ row.id =
      λ id admin same.
        let clash : has_role d₀.user_roles row.id system_admin_role_id ≡ true =
          subst (λ i. has_role d₀.user_roles i system_admin_role_id ≡ true) same admin in
        ground arith in
    let laws : (id : ℕ)
        → has_role d₀.user_roles id system_admin_role_id ≡ true
        → UserLaws (IsUntouched id d₀) row =
      λ id admin. IsUntouched-UserLaws id d₀ row (apart id admin) in
    record {
      blind = λ d events h. h;
      on_fields = λ d h. (h.0, λ id admin. (laws id admin).on_fields d (h.1 id admin));
      on_roles = λ d ids given h. (
        select_where-append_none (assigns system_admin_role_id)
              (delete_where (λ a. a.user_id == row.id && not (has_number ids a.role_id))
                d.user_roles)
              (assignment_rows row.id
                (select_where (λ i. not (has_role d.user_roles row.id i)) ids))
              (assignment_rows_other system_admin_role_id row.id
                (λ i. not (has_role d.user_roles row.id i)) ids
                (ap grants_admin (sym given) ∙ modest))
            ∙ select_where-delete_where_none (assigns system_admin_role_id)
                (λ a. a.user_id == row.id && not (has_number ids a.role_id)) d.user_roles
                (deletes_no_assignment system_admin_role_id row.id ids d.user_roles (
                  has_role-assigns d.user_roles row.id system_admin_role_id
                  ∙ ap (exists_where (belongs_to row.id)) h.0
                  ∙ sym (has_role-assigns d₀.user_roles row.id system_admin_role_id)
                  ∙ ordinary))
            ∙ h.0,
        λ id admin. (laws id admin).on_roles d ids given (h.1 id admin),
      );
    }

admin_named : (r : Role) → r.name ≡ "admin" → str_eq (trim_space r.name) "admin" ≡ true
unfolding trim_space
admin_named r e = subst (λ n. str_eq (trim_space n) "admin" ≡ true) (sym e) refl

guard_fails :
    (guarded allowed : Bool)
    → guarded ≡ true
    → allowed ≡ false
    → (guarded && not allowed) ≡ false
    → ⊥
guard_fails guarded allowed e e' passed = ground arith

guard_passes :
    (guarded allowed : Bool) → allowed ≡ false → (guarded && not allowed) ≡ false → guarded ≡ false
guard_passes guarded allowed e passed = ground arith

-- Where the role of administrators is named "admin", as it is seeded: a request by an actor who may
-- not grant it, whatever else it asks for, changes neither who has that role nor the account and the
-- roles of anyone who has it.
pub update_user-AdminsKept :
    (s : UserService) (input : UpdateUserInput) (env : Env) (w : World) (r : Role)
    → find_where (has_role_id system_admin_role_id) w.db.roles ≡ some r
    → r.name ≡ "admin"
    → can_grant input ≡ false
    → AdminsKept w.db (update_user s input env w).1.db
update_user-AdminsKept s input env w r seeded name powerless =
    update_user-holds (AdminsKept w.db) s input env w
      (λ row (actor, is_actor, is_target, apart, permitted, unguarded).
        AdminsKept-UserLaws w.db row
          (elim (Bool-cases (has_role w.db.user_roles row.id system_admin_role_id)) [
            | inr ordinary ↦ ordinary
            | inl admin ↦
                let named =
                  has_role_named-role_names w.db.user_roles row.id system_admin_role_id w.db.roles r
                    seeded (admin_named r name) admin in
                absurd (
                  guard_fails (has_role_named "admin" (role_names row.id w.db)) (can_grant input)
                    named powerless unguarded)
          ])
          (guard_passes (grants_admin row.role_ids) (can_grant input) powerless permitted))
      (refl, λ id admin. (refl, refl))
