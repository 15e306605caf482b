-- ===== src/Projects/Access.antt =====
-- Who may do what to a project: the access checks of internal/projects/service.
use wow_dashboard_api.Prelude.{◌≡◌, ◌≢◌, arith, String, Bool, true, false, Option, none, some, []}
use wow_dashboard_api.Prelude.Text.{trim_space}
use wow_dashboard_api.Store.Schema.{Db}
use wow_dashboard_api.Store.Effect.{Env, World, Result, ok}
use wow_dashboard_api.Projects.Repository.{ProjectAccess, AccessRole, access_to, can_edit, is_owner}
use wow_dashboard_api.Projects.Operations.{
  ProjectService, UpdateProjectInput, get_project, update_accessible, update_project,
  archive_accessible, archive_project,
}
use wow_dashboard_api.Projects.Members.{
  require_owner, add_member, update_member_role, remove_member,
}

-- Whether the user that a text names may edit the project that a text names.
abbrev allows : (AccessRole → Bool) → Option ProjectAccess → Bool
allows p none = false
allows p (some a) = p a.access_role

abbrev pub may : (AccessRole → Bool) → Env → Db → String → String → Bool
may p env d user id = elim (env.parse_uuid (trim_space user)) [
  | none ↦ false
  | some u ↦ (elim (env.parse_uuid (trim_space id)) [
    | none ↦ false
    | some i ↦ allows p (access_to d i u)
  ])
]

-- No answer is a success, and the database is as before.
abbrev pub IsRefused : {A : Type 0} → World → Result A × World → Type 0
IsRefused {A} w (r, w') = ((a : A) → r ≢ ok a) × (w'.db ≡ w.db)

-- An update by a user who may not edit the project, because they have no access or may only view it,
-- is refused, and leaves the database as it was.
pub update_project-IsRefused :
    (s : ProjectService) (input : UpdateProjectInput) (env : Env) (w : World)
    → may can_edit env w.db input.user_id input.id ≡ false
    → IsRefused w (update_project s input env w)
unfolding update_project update_accessible
update_project-IsRefused s input env w h = (λ p done. ground arith, ground arith)

-- A request to archive a project by anyone but its owner is refused, and leaves the database as it
-- was.
pub archive_project-IsRefused :
    (s : ProjectService) (user id : String) (env : Env) (w : World)
    → may is_owner env w.db user id ≡ false
    → IsRefused w (archive_project s user id env w)
unfolding archive_project archive_accessible
archive_project-IsRefused s user id env w h = (λ p done. ground arith, ground arith)

require_owner-IsRefused :
    (user id : String) (env : Env) (w : World)
    → may is_owner env w.db user id ≡ false
    → IsRefused w (require_owner user id env w)
unfolding require_owner
require_owner-IsRefused user id env w h = (λ p done. ground arith, ground arith)

-- Only the owner of a project changes its members: adding, changing a role and removing are refused
-- to every other user, and leave the database as it was.
pub members-IsRefused :
    (s : ProjectService) (user id : String) (env : Env) (w : World)
    → may is_owner env w.db user id ≡ false
    → ((email role : String)
        → IsRefused w (
            add_member s
              (record { requesting_user_id = user; project_id = id; email = email; role = role })
              env
              w))
      × ((target role : String)
          → IsRefused w (
              update_member_role s
                (record {
                  requesting_user_id = user;
                  project_id = id;
                  target_user_id = target;
                  role = role;
                })
                env
                w))
      × ((target : String) → IsRefused w (remove_member s user id target env w))
unfolding add_member update_member_role remove_member
members-IsRefused s user id env w h =
    let (refused, kept) = require_owner-IsRefused user id env w h in
    (
      λ email role. (λ m done. grind (arith, refused, kept), grind (arith, refused, kept)),
      λ target role. (λ m done. grind (arith, refused, kept), grind (arith, refused, kept)),
      λ target. (λ m done. grind (arith, refused, kept), grind (arith, refused, kept)),
    )

-- The answer about a project that the user has no access to is the answer about one that does not
-- exist.
pub get_project_hidden :
    (user id : String) (env : Env) (w : World)
    → may (λ r. true) env w.db user id ≡ false
    → (get_project user id env w).0
      ≡ (get_project user id env (record w { db = record w.db { projects = [] } })).0
unfolding get_project
get_project_hidden user id env w h = ground arith
