-- ===== src/Projects/Membership.antt =====
-- What adding and removing a member leave: internal/projects/service/members.go.
use wow_dashboard_api.Prelude.{
  ℕ, ◌+◌, ◌≡◌, ◌≢◌, ap, sym, ◌∙◌, arith, true, false, some, List, [], ◌∷◌, ◌++◌, find_where,
  exists_where, Option-cases, inl, inr, All, All-append,
}
use wow_dashboard_api.Store.Schema.{Project, ProjectMember, ProjectRole, User, Db}
use wow_dashboard_api.Store.Effect.{Result-cases, Env, World, Error, ok, err}
use wow_dashboard_api.Prelude.Text.{trim_space, to_lower}
use wow_dashboard_api.Auth.Users.{has_email}
use wow_dashboard_api.Projects.Repository.{
  ProjectAccess, AccessRole, access_to, can_edit, is_owner, is_membership, add_project_member,
  remove_project_member, has_project_id,
}
use wow_dashboard_api.Projects.Audit.{emit_member_added}
use wow_dashboard_api.Projects.Operations.{ProjectService, commit}
use wow_dashboard_api.Projects.Commit.{commit-ok, commit-err}
use wow_dashboard_api.Projects.Ownership.{require_owner-db, require_owner-ok}
use wow_dashboard_api.Projects.Members.{
  require_owner, AddMemberInput, add_owned, add_member, normalize_project_role, already_member,
  member_event, project_role_text,
}

-- A project's owner is no member of it: the row that GetProjectWithAccess would never read.
abbrev pub IsGuest : List Project → ProjectMember → Type 0
IsGuest projects m =
    (p : Project)
    → find_where (has_project_id m.project_id) projects ≡ some p
    → p.owner_user_id ≢ m.user_id

abbrev pub HasNoOwnerAsMember : Db → Type 0
HasNoOwnerAsMember d = All (IsGuest d.projects) d.project_members

emit_member_added-members :
    (user : ℕ) (project : Project) (env : Env) (v : World)
    → (emit_member_added user project env v).1.db.project_members ≡ v.db.project_members
unfolding emit_member_added
emit_member_added-members user project env v = ground arith

emit_member_added-projects :
    (user : ℕ) (project : Project) (env : Env) (v : World)
    → (emit_member_added user project env v).1.db.projects ≡ v.db.projects
unfolding emit_member_added
emit_member_added-projects user project env v = ground arith

-- The grant that an owner's request writes.
abbrev grant : ProjectAccess → ℕ → ProjectRole → ℕ → ProjectMember
grant access target role at = record {
  project_id = access.project.id;
  user_id = target;
  role = role;
  created_at = at;
  updated_at = at;
}

add_owned-commits :
    (s : ProjectService) (input : AddMemberInput) (access : ProjectAccess) (env : Env)
    (w w' : World) (m : ProjectMember) (role : ProjectRole) (u : User)
    → normalize_project_role input.role ≡ some role
    → find_where (has_email (to_lower (trim_space input.email))) w.db.users ≡ some u
    → add_owned s input access env w ≡ (ok m, w')
    → (u.id ≢ access.project.owner_user_id)
      × (commit s already_member
            (add_project_member (grant access u.id role (env.clock (w.calls + 1))))
            (member_event "projects.member.added" "Project member added." access u.id
              (project_role_text role))
            (emit_member_added u.id access.project)
            env
            (record w { calls = w.calls + 2 })
          ≡ (ok m, w'))
unfolding add_owned wow_dashboard_api.Projects.Repository.find_user_by_email
add_owned-commits s input access env w w' m role u known found e =
    (λ same. ground arith, ground arith)

-- A grant that is written is new.
add_project_member-ok :
    (m m' : ProjectMember) (env : Env) (w : World)
    → (add_project_member m env w).0 ≡ ok m'
    → (m' ≡ m)
      × (exists_where (is_membership m.project_id m.user_id) w.db.project_members ≡ false)
      × ((add_project_member m env w).1.db.project_members ≡ w.db.project_members ++ m ∷ [])
      × ((add_project_member m env w).1.db.projects ≡ w.db.projects)
unfolding add_project_member
add_project_member-ok m m' env w e = (ground arith, ground arith, ground arith, ground arith)

add_owned-ok :
    (s : ProjectService) (input : AddMemberInput) (access : ProjectAccess) (env : Env)
    (w w' : World) (m : ProjectMember)
    → s.unit_of_work ≡ true
    → add_owned s input access env w ≡ (ok m, w')
    → (m.project_id ≡ access.project.id)
      × (m.user_id ≢ access.project.owner_user_id)
      × (exists_where (is_membership m.project_id m.user_id) w.db.project_members ≡ false)
      × (w'.db.project_members ≡ w.db.project_members ++ m ∷ [])
      × (w'.db.projects ≡ w.db.projects)
unfolding add_owned wow_dashboard_api.Projects.Repository.find_user_by_email
add_owned-ok s input access env w w' m atomic e =
    elim (Option-cases (normalize_project_role input.role)) [
      | inl unknown ↦ absurd (ground arith)
      | inr (role, known) ↦
          elim (Option-cases
            (find_where (has_email (to_lower (trim_space input.email))) w.db.users)) [
              | inl missing ↦ absurd (ground arith)
              | inr (u, found) ↦
                  let (other, committed) =
                    add_owned-commits s input access env w w' m role u known found e in
                  let g = grant access u.id role (env.clock (w.calls + 1)) in
                  let event =
                    member_event {A = ProjectMember} "projects.member.added" "Project member added."
                      access u.id (project_role_text role) in
                  let (written, members, projects) =
                    commit-ok s already_member (add_project_member g) event
                      (emit_member_added u.id access.project) env _ w' m atomic
                      (emit_member_added-members u.id access.project env)
                      (emit_member_added-projects u.id access.project env) committed in
                  let (same, new, left, left') = add_project_member-ok g m env _ written in
                  (
                    ap (λ x. x.project_id) same,
                    λ own. other (sym (ap (λ x. x.user_id) same) ∙ own),
                    rw same new,
                    rw same (members ∙ left),
                    projects ∙ left',
                  )
            ]
    ]

-- A new member never is the owner, and was no member before.
pub add_member-ok :
    (s : ProjectService) (input : AddMemberInput) (env : Env) (w w' : World) (m : ProjectMember)
    → s.unit_of_work ≡ true
    → add_member s input env w ≡ (ok m, w')
    → (p : Project) × (find_where (has_project_id m.project_id) w.db.projects ≡ some p)
      × (m.user_id ≢ p.owner_user_id)
      × (exists_where (is_membership m.project_id m.user_id) w.db.project_members ≡ false)
      × (w'.db.project_members ≡ w.db.project_members ++ m ∷ [])
      × (w'.db.projects ≡ w.db.projects)
unfolding add_member
add_member-ok s input env w w' m atomic e =
    let asked = require_owner input.requesting_user_id input.project_id env w in
    elim (Result-cases asked.0) [
      | inr (e', refused) ↦ absurd (grind arith)
      | inl (access, granted) ↦
          let same_db = require_owner-db input.requesting_user_id input.project_id env w in
          let found = require_owner-ok _ _ env w access granted in
          let added : add_owned s input access env asked.1 ≡ (ok m, w') = grind arith in
          let (project, other, new, members, projects) =
            add_owned-ok s input access env asked.1 w' m atomic added in
          (
            access.project,
            rw project found,
            other,
            rw (← same_db) new,
            rw (← same_db) members,
            rw (← same_db) projects,
          )
    ]

add_owned-err :
    (s : ProjectService) (input : AddMemberInput) (access : ProjectAccess) (env : Env) (w : World)
    (e : Error)
    → s.unit_of_work ≡ true
    → (add_owned s input access env w).0 ≡ err e
    → (add_owned s input access env w).1.db ≡ w.db
unfolding add_owned wow_dashboard_api.Projects.Repository.find_user_by_email
add_owned-err s input access env w e atomic h = grind (arith, commit-err)

add_member-err :
    (s : ProjectService) (input : AddMemberInput) (env : Env) (w : World) (e : Error)
    → s.unit_of_work ≡ true
    → (add_member s input env w).0 ≡ err e
    → (add_member s input env w).1.db ≡ w.db
unfolding add_member
add_member-err s input env w e atomic h =
    let kept = require_owner-db input.requesting_user_id input.project_id env w in
    let undone = λ (access : ProjectAccess).
      add_owned-err s input access env
        (require_owner input.requesting_user_id input.project_id env w).1 e atomic in
    grind (arith, undone)

new-IsGuest :
    (projects : List Project) (p : Project) (m : ProjectMember)
    → find_where (has_project_id m.project_id) projects ≡ some p
    → m.user_id ≢ p.owner_user_id
    → IsGuest projects m
new-IsGuest projects p m found other q e own = absurd (ground arith)

-- With a unit of work, whatever the request and its answer, adding a member never makes the owner of
-- a project a member of it.
pub add_member-HasNoOwnerAsMember :
    (s : ProjectService) (input : AddMemberInput) (env : Env) (w : World)
    → s.unit_of_work ≡ true
    → HasNoOwnerAsMember w.db
    → HasNoOwnerAsMember (add_member s input env w).1.db
add_member-HasNoOwnerAsMember s input env w atomic valid =
    elim (Result-cases (add_member s input env w).0) [
      | inr (e, refused) ↦ rw (add_member-err s input env w e atomic refused) valid
      | inl (m, added) ↦
          let (p, found, other, new, members, projects) =
            add_member-ok s input env w (add_member s input env w).1 m atomic
              (ap (λ r. (r, (add_member s input env w).1)) added) in
          rw members (
            rw projects (
              All-append (IsGuest w.db.projects) w.db.project_members (m ∷ []) valid
                (new-IsGuest w.db.projects p m found other, tt)))
    ]
