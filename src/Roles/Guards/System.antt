-- ===== src/Roles/Guards/System.antt =====
-- System roles and assigned roles under the management of roles: internal/roles/service/service.go.
use mathlib.Core.Path.{subst}
use wow_dashboard_api.Prelude.{
  ℕ, ◌≡◌, ◌≢◌, refl, ap, sym, ◌∙◌, inl, inr, String, true, false, not, ◌&&◌, ◌==◌, List, [], ◌∷◌,
  ◌++◌, arith, str_eq, eq_iff, find_where, select_where, exists_where, update_where, delete_where,
  All, All-append, All-implies, All-delete_where, All-select_where, All-exists_where, Option-cases,
  exists_where-append, exists_where-update_where, exists_where-delete_where_ne, find_where-append,
  find_where-update_where_ne, find_where-delete_where_ne, select_where-delete_where_ne,
  select_where-append_none,
}
use wow_dashboard_api.Store.Schema.{Role, RolePermission, Db}
use wow_dashboard_api.Store.Effect.{Env, World}
use wow_dashboard_api.Rbac.{permission_all, is_assignable, is_member}
use wow_dashboard_api.Roles.Store.{
  CreateRoleRow, has_role_id, role_row, grant_rows, with_details, holds, grants,
  replaced_permissions, is_deletable, assigns,
}
use wow_dashboard_api.Roles.Service.{
  RoleService, CreateRoleInput, UpdateRoleInput, create_role, update_role, delete_role,
}
use wow_dashboard_api.Roles.Permissions.{IsAssignable, is_assignable_not_all}
use wow_dashboard_api.Roles.Guards.{
  RoleInvariant, is_system_row, is_system_id, is_system_id-details,
}
use wow_dashboard_api.Roles.Guards.Requests.{
  create_role-holds, update_role-holds, delete_role-holds,
}

-- The wildcard is granted to system roles only.
abbrev IsWildcardSafe : List Role → RolePermission → Type 0
IsWildcardSafe roles g =
    str_eq g.permission permission_all ≡ true → is_system_id roles g.role_id ≡ true

abbrev pub OnlySystemHasAll : Db → Type 0
OnlySystemHasAll d = All (IsWildcardSafe d.roles) d.role_permissions

-- Every role that is assigned exists.
abbrev pub AssignedRolesExist : Db → Type 0
AssignedRolesExist d = All (λ a. exists_where (has_role_id a.role_id) d.roles ≡ true) d.user_roles

-- The system roles and their permissions are as they were.
abbrev pub SystemRolesKept : Db → Db → Type 0
SystemRolesKept d₀ d =
    (id : ℕ)
    → is_system_id d₀.roles id ≡ true
    → (find_where (has_role_id id) d.roles ≡ find_where (has_role_id id) d₀.roles)
      × (select_where (grants id) d.role_permissions ≡ select_where (grants id) d₀.role_permissions)

assignable-IsWildcardSafe :
    (roles : List Role) (id : ℕ) (permissions : List String)
    → IsAssignable permissions
    → All (IsWildcardSafe roles) (grant_rows id permissions)
assignable-IsWildcardSafe roles id [] fits = tt
assignable-IsWildcardSafe roles id (p ∷ permissions) (fit, fits) = (
  λ wild. absurd (is_assignable_not_all p fit ((eq_iff p permission_all).0 wild)),
  assignable-IsWildcardSafe roles id permissions fits,
)

is_system_id-append :
    (roles : List Role) (row : CreateRoleRow) (id : ℕ)
    → is_system_id roles id ≡ true
    → is_system_id (roles ++ role_row row ∷ []) id ≡ true
is_system_id-append [] row id e = absurd (ground arith)
is_system_id-append (r ∷ roles) row id e = ground (arith, is_system_id-append roles row id)

-- A row of another identifier.
has_role_id_apart :
    (id other : ℕ) → id ≢ other → (r : Role) → has_role_id id r ≡ true → has_role_id other r ≡ false
has_role_id_apart id other ne r e = ground arith

is_deletable_apart :
    (d : Db) (id other : ℕ)
    → id ≢ other
    → (r : Role) → has_role_id id r ≡ true
    → is_deletable d other r ≡ false
is_deletable_apart d id other ne r e = ground arith

system_apart :
    (roles : List Role) (id other : ℕ)
    → is_system_id roles id ≡ true
    → is_system_id roles other ≡ false
    → id ≢ other
system_apart roles id other sys custom same =
    let clash : is_system_id roles other ≡ true =
      subst (λ i. is_system_id roles i ≡ true) same sys in
    ground arith

OnlySystemHasAll-RoleInvariant : RoleInvariant OnlySystemHasAll
OnlySystemHasAll-RoleInvariant = record {
  blind = λ d events h. h;
  on_insert = λ d row fresh h.
      All-implies (IsWildcardSafe d.roles) (IsWildcardSafe (d.roles ++ role_row row ∷ []))
        (λ g safe wild. is_system_id-append d.roles row g.role_id (safe wild)) d.role_permissions h;
  on_grant = λ d id permissions custom fits h.
      All-append (IsWildcardSafe d.roles) d.role_permissions (grant_rows id permissions) h
        (assignable-IsWildcardSafe d.roles id permissions fits);
  on_details = λ d row custom h.
      All-implies (IsWildcardSafe d.roles)
        (IsWildcardSafe (update_where (has_role_id row.id) (with_details row) d.roles))
        (λ g safe wild. is_system_id-details row d.roles g.role_id ∙ safe wild) d.role_permissions
        h;
  on_replace = λ d id permissions custom fits h.
      All-append (IsWildcardSafe d.roles) _ _
        (All-delete_where (IsWildcardSafe d.roles) _ d.role_permissions h)
        (assignable-IsWildcardSafe d.roles id
          (select_where (λ p. not (holds d.role_permissions id p)) permissions)
          (All-select_where (λ p. is_assignable p ≡ true) _ permissions fits));
  on_delete = λ d id custom free h.
      All-delete_where (IsWildcardSafe (delete_where (is_deletable d id) d.roles)) (grants id)
        d.role_permissions
        (All-implies (IsWildcardSafe d.roles)
          (IsWildcardSafe (delete_where (is_deletable d id) d.roles))
          (λ g safe wild.
            ap is_system_row (
              find_where-delete_where_ne (has_role_id g.role_id) (is_deletable d id)
                (is_deletable_apart d g.role_id id
                  (system_apart d.roles g.role_id id (safe wild) custom))
                d.roles)
            ∙ safe wild)
          d.role_permissions h);
}

AssignedRolesExist-RoleInvariant : RoleInvariant AssignedRolesExist
AssignedRolesExist-RoleInvariant = record {
  blind = λ d events h. h;
  on_insert = λ d row fresh h.
      All-implies (λ a. exists_where (has_role_id a.role_id) d.roles ≡ true)
        (λ a. exists_where (has_role_id a.role_id) (d.roles ++ role_row row ∷ []) ≡ true)
        (λ a there. exists_where-append (has_role_id a.role_id) d.roles (role_row row ∷ []) there)
        d.user_roles h;
  on_grant = λ d id permissions custom fits h. h;
  on_details = λ d row custom h.
      All-implies (λ a. exists_where (has_role_id a.role_id) d.roles ≡ true)
        (λ a.
          exists_where (has_role_id a.role_id)
            (update_where (has_role_id row.id) (with_details row) d.roles)
          ≡ true)
        (λ a there.
          exists_where-update_where (has_role_id a.role_id) (has_role_id row.id) (with_details row)
            (λ r. refl) d.roles
          ∙ there)
        d.user_roles h;
  on_replace = λ d id permissions custom fits h. h;
  on_delete = λ d id custom free h.
      All-exists_where (λ a. exists_where (has_role_id a.role_id) d.roles ≡ true) (assigns id)
        (λ a.
          exists_where (has_role_id a.role_id) (delete_where (is_deletable d id) d.roles) ≡ true)
        (λ a there other.
          exists_where-delete_where_ne (has_role_id a.role_id) (is_deletable d id)
            (is_deletable_apart d a.role_id id (λ same. ground arith)) d.roles
          ∙ there)
        d.user_roles free h;
}

exists_where-grant_rows :
    (id other : ℕ) (permissions : List String)
    → id ≢ other
    → exists_where (grants id) (grant_rows other permissions) ≡ false
exists_where-grant_rows id other [] ne = refl
exists_where-grant_rows id other (p ∷ permissions) ne =
    ground (arith, exists_where-grant_rows id other permissions ne)

-- A system role of the start is still there, and is no role that a request may write to.
module _ (d₀ d : Db) (kept : SystemRolesKept d₀ d) (id other : ℕ)
    (sys : is_system_id d₀.roles id ≡ true) (custom : is_system_id d.roles other ≡ false) where
  kept_apart : id ≢ other
  kept_apart = system_apart d.roles id other (ap is_system_row (kept id sys).0 ∙ sys) custom

  kept_replaced :
      (permissions : List String)
      → select_where (grants id) (replaced_permissions other permissions d.role_permissions)
        ≡ select_where (grants id) d₀.role_permissions
  kept_replaced permissions =
      select_where-append_none (grants id)
        (delete_where (λ g. g.role_id == other && not (is_member g.permission permissions))
          d.role_permissions)
        (grant_rows other (select_where (λ p. not (holds d.role_permissions other p)) permissions))
        (exists_where-grant_rows id other
          (select_where (λ p. not (holds d.role_permissions other p)) permissions) kept_apart)
      ∙ select_where-delete_where_ne (grants id)
          (λ g. g.role_id == other && not (is_member g.permission permissions))
          (λ g mine. let apart = kept_apart in ground arith) d.role_permissions
      ∙ (kept id sys).1

SystemRolesKept-RoleInvariant : (d₀ : Db) → RoleInvariant (SystemRolesKept d₀)
SystemRolesKept-RoleInvariant d₀ = record {
  blind = λ d events h. h;
  on_insert = λ d row fresh h id sys. elim (Option-cases (find_where (has_role_id id) d₀.roles)) [
    | inl missing ↦ absurd (ground arith)
    | inr (r, there) ↦ (
      find_where-append (has_role_id id) d.roles (role_row row ∷ []) r ((h id sys).0 ∙ there)
          ∙ sym there,
      (h id sys).1,
    )
  ];
  on_grant = λ d other permissions custom fits h id sys. (
    (h id sys).0,
    select_where-append_none (grants id) d.role_permissions (grant_rows other permissions)
          (exists_where-grant_rows id other permissions (kept_apart d₀ d h id other sys custom))
        ∙ (h id sys).1,
  );
  on_details = λ d row custom h id sys. (
    find_where-update_where_ne (has_role_id id) (has_role_id row.id)
          (has_role_id_apart id row.id (kept_apart d₀ d h id row.id sys custom)) (with_details row)
          (λ r. refl) d.roles
        ∙ (h id sys).0,
    (h id sys).1,
  );
  on_replace = λ d other permissions custom fits h id sys.
      ((h id sys).0, kept_replaced d₀ d h id other sys custom permissions);
  on_delete = λ d other custom free h id sys. (
    find_where-delete_where_ne (has_role_id id) (is_deletable d other)
          (is_deletable_apart d id other (kept_apart d₀ d h id other sys custom)) d.roles
        ∙ (h id sys).0,
    select_where-delete_where_ne (grants id) (grants other)
          (λ g mine. let apart = kept_apart d₀ d h id other sys custom in ground arith)
          d.role_permissions
        ∙ (h id sys).1,
  );
}

-- The requests that manage roles, one after another, each with its own environment and whatever
-- answer.
pub data Managed (s : RoleService) : World → World → Type 0 where
  start : (w : World) → Managed s w w
  after_create :
      (w w' : World) (input : CreateRoleInput) (env : Env)
      → Managed s w w'
      → Managed s w (create_role s input env w').1
  after_update :
      (w w' : World) (input : UpdateRoleInput) (env : Env)
      → Managed s w w'
      → Managed s w (update_role s input env w').1
  after_delete :
      (w w' : World) (actor id : String) (env : Env)
      → Managed s w w'
      → Managed s w (delete_role s actor id env w').1

Managed-holds :
    (P : Db → Type 0) (keeps : RoleInvariant P) (s : RoleService) (w w' : World)
    → Managed s w w'
    → P w.db
    → P w'.db
Managed-holds P keeps s w w' (start v) h = h
Managed-holds P keeps s w w' (after_create v v' input env before) h =
    create_role-holds P keeps s input env v' (Managed-holds P keeps s v v' before h)
Managed-holds P keeps s w w' (after_update v v' input env before) h =
    update_role-holds P keeps s input env v' (Managed-holds P keeps s v v' before h)
Managed-holds P keeps s w w' (after_delete v v' actor id env before) h =
    delete_role-holds P keeps s actor id env v' (Managed-holds P keeps s v v' before h)

-- However the requests that manage roles follow one another and whatever fails on the way: if only
-- system roles had the wildcard permission and every assigned role existed, then so it is
-- afterwards, and every system role and its permissions are as they were.
pub Managed-safe :
    (s : RoleService) (w w' : World)
    → Managed s w w'
    → OnlySystemHasAll w.db
    → AssignedRolesExist w.db
    → OnlySystemHasAll w'.db × AssignedRolesExist w'.db × SystemRolesKept w.db w'.db
Managed-safe s w w' run safe assigned = (
  Managed-holds OnlySystemHasAll OnlySystemHasAll-RoleInvariant s w w' run safe,
  Managed-holds AssignedRolesExist AssignedRolesExist-RoleInvariant s w w' run assigned,
  Managed-holds (SystemRolesKept w.db) (SystemRolesKept-RoleInvariant w.db) s w w' run
      (λ id sys. (refl, refl)),
)
