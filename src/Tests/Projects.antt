-- ===== src/Tests/Projects.antt =====
-- Projects and their members on concrete inputs.
use wow_dashboard_api.Prelude.{
  ℕ, ◌≡◌, ◌≢◌, refl, arith, String, Bool, true, false, Option, none, some, List, [], ◌∷◌, ◌++◌,
  find_where, exists_where, str_eq, if◌then◌else◌,
}
use wow_dashboard_api.Store.Schema.{User, Project, ProjectStatus, ProjectMember, ProjectRole}
use wow_dashboard_api.Store.Effect.{Env, World, ok}
use wow_dashboard_api.Projects.Repository.{can_edit, is_owner, has_project_id, is_membership}
use wow_dashboard_api.Projects.Operations.{ProjectService, UpdateProjectInput, get_project}
use wow_dashboard_api.Projects.Members.{
  AddMemberInput, add_member, update_member_role, remove_member,
}
use wow_dashboard_api.Projects.Access.{may, IsRefused, members-IsRefused, get_project_hidden}
use wow_dashboard_api.Projects.Membership.{
  HasNoOwnerAsMember, IsGuest, add_member-ok, add_member-HasNoOwnerAsMember,
}
use wow_dashboard_api.Tests.{env as auth_env, ada, world as auth_world}

abbrev projects : ProjectService
projects = record { unit_of_work = true; audit_recorder = true }

abbrev env : Env
env = record auth_env {
  parse_uuid = λ text.
      if str_eq text "ada"
      then some 1
      else if str_eq text "bob"
      then some 2
      else if str_eq text "plan"
      then some 5
      else none;
}

abbrev bob : User
bob = record ada { id = 2; email = "bob@example.com" }

abbrev eve : User
eve = record ada { id = 3; email = "eve@example.com" }

abbrev plan : Project
plan = record {
  id = 5;
  name = "Plan";
  description = "";
  status = ProjectStatus.active;
  owner_user_id = 1;
  created_at = 40;
  updated_at = 40;
}

abbrev viewing : ProjectMember
viewing = record {
  project_id = 5;
  user_id = 2;
  role = ProjectRole.viewer;
  created_at = 50;
  updated_at = 50;
}

abbrev world : World
world = record auth_world {
  db = record auth_world.db {
    users = ada ∷ bob ∷ eve ∷ [];
    projects = plan ∷ [];
    project_members = viewing ∷ [];
  };
}

abbrev renaming : UpdateProjectInput
renaming = record {
  user_id = "bob";
  id = "plan";
  name = some "Mine";
  description = none;
  status = none;
}

bob-may_not_edit : may can_edit env world.db "bob" "plan" ≡ false
unfolding wow_dashboard_api.Prelude.Text.trim_space
bob-may_not_edit = refl

bob-may_not_own : may is_owner env world.db "bob" "plan" ≡ false
unfolding wow_dashboard_api.Prelude.Text.trim_space
bob-may_not_own = refl

members-IsRefused_example :
    ((email role : String)
      → IsRefused world (
          add_member projects
            (record { requesting_user_id = "bob"; project_id = "plan"; email = email; role = role })
            env
            world))
    × ((target role : String)
        → IsRefused world (
            update_member_role projects
              (record {
                requesting_user_id = "bob";
                project_id = "plan";
                target_user_id = target;
                role = role;
              })
              env
              world))
    × ((target : String) → IsRefused world (remove_member projects "bob" "plan" target env world))
members-IsRefused_example = members-IsRefused projects "bob" "plan" env world bob-may_not_own

-- The project of somebody else.
abbrev foreign : World
foreign = record world { db = record world.db { project_members = [] } }

foreign-hidden : may (λ r. true) env foreign.db "bob" "plan" ≡ false
unfolding wow_dashboard_api.Prelude.Text.trim_space
foreign-hidden = refl

get_project_hidden_example :
    (get_project "bob" "plan" env foreign).0
    ≡ (get_project "bob" "plan" env (record foreign { db = record foreign.db { projects = [] } })).0
get_project_hidden_example = get_project_hidden "bob" "plan" env foreign foreign-hidden

abbrev inviting : AddMemberInput
inviting = record {
  requesting_user_id = "ada";
  project_id = "plan";
  email = "Eve@example.com ";
  role = "editor";
}

abbrev editing : ProjectMember
editing = record {
  project_id = 5;
  user_id = 3;
  role = ProjectRole.editor;
  created_at = 102;
  updated_at = 102;
}

abbrev joined : World
joined = (add_member projects inviting env world).1

add_member-joined : add_member projects inviting env world ≡ (ok editing, joined)
unfolding add_member wow_dashboard_api.Prelude.Text.trim_space
    wow_dashboard_api.Prelude.Text.to_lower
add_member-joined = refl

add_member-ok_example :
    (p : Project) × (find_where (has_project_id 5) world.db.projects ≡ some p)
    × (3 ≢ p.owner_user_id)
    × (exists_where (is_membership 5 3) world.db.project_members ≡ false)
    × (joined.db.project_members ≡ world.db.project_members ++ editing ∷ [])
    × (joined.db.projects ≡ world.db.projects)
add_member-ok_example =
    add_member-ok projects inviting env world joined editing refl add_member-joined

viewing-IsGuest : IsGuest world.db.projects viewing
viewing-IsGuest p found own = ground arith

add_member-HasNoOwnerAsMember_example :
    HasNoOwnerAsMember (add_member projects inviting env world).1.db
add_member-HasNoOwnerAsMember_example =
    add_member-HasNoOwnerAsMember projects inviting env world refl (viewing-IsGuest, tt)
