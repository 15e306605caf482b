-- ===== src/Tests/Roles.antt =====
-- The management of roles on concrete inputs.
use wow_dashboard_api.Prelude.{◌≡◌, refl, true, false, some, none, [], ◌∷◌}
use wow_dashboard_api.Store.Schema.{Role}
use wow_dashboard_api.Store.Effect.{World, err, system_role, invalid_input}
use wow_dashboard_api.Roles.Service.{
  RoleService, CreateRoleInput, UpdateRoleInput, create_role, update_role, delete_role,
}
use wow_dashboard_api.Roles.Guards.System.{
  OnlySystemHasAll, AssignedRolesExist, SystemRolesKept, start, after_create, after_update,
  after_delete, Managed-safe,
}
use wow_dashboard_api.Tests.{env, world}

abbrev pub admin_role : Role
admin_role = record {
  id = 655_361;
  name = "admin";
  description = "";
  is_system = true;
  created_at = 1;
  updated_at = 1;
}

abbrev pub editor_role : Role
editor_role = record {
  id = 1;
  name = "editor";
  description = "";
  is_system = false;
  created_at = 2;
  updated_at = 2;
}

abbrev pub role_world : World
role_world = record world {
  db = record world.db {
    roles = admin_role ∷ editor_role ∷ [];
    role_permissions = record { role_id = 655_361; permission = "*" } ∷ [];
    user_roles = record { user_id = 1; role_id = 655_361 } ∷ [];
  };
}

abbrev roles : RoleService
roles = record { unit_of_work = true; audit_recorder = true }

abbrev reader : CreateRoleInput
reader = record {
  actor_user_id = "ada";
  name = " Reader ";
  description = "";
  permissions = "users:read" ∷ " users:read" ∷ "roles:read" ∷ [];
}

abbrev renaming : UpdateRoleInput
renaming = record {
  actor_user_id = "ada";
  role_id = "editor";
  name = some "writer";
  description = none;
  permissions = some ("projects:create" ∷ []);
}

abbrev created : World
created = (create_role roles reader env role_world).1

abbrev renamed : World
renamed = (update_role roles renaming env created).1

abbrev deleted : World
deleted = (delete_role roles "ada" "editor" env renamed).1

Managed-safe_example :
    OnlySystemHasAll deleted.db
    × AssignedRolesExist deleted.db
    × SystemRolesKept role_world.db deleted.db
Managed-safe_example =
    Managed-safe roles role_world deleted
      (after_delete role_world renamed "ada" "editor" env (
        after_update role_world created renaming env
          (after_create role_world role_world reader env (start role_world))))
      (λ wild. refl, tt) (refl, tt)

-- The wildcard cannot be given to a role.
wildcard_refused :
    (create_role roles (record reader { permissions = "*" ∷ [] }) env role_world).0
    ≡ err invalid_input
unfolding create_role
wildcard_refused = refl

-- The three requests succeed, and the role is gone.
deleted_gone :
    deleted.db.roles
    ≡ admin_role
      ∷ record editor_role { id = 51; name = "Reader"; created_at = 100; updated_at = 100 }
      ∷ []
unfolding create_role update_role delete_role
deleted_gone = refl

system_role_kept :
    (update_role roles renaming (record env { parse_uuid = λ text. some 655_361 }) role_world).0
    ≡ err system_role
unfolding update_role
system_role_kept = refl
