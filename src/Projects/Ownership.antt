-- ===== src/Projects/Ownership.antt =====
-- What requireOwner of internal/projects/service/members.go has read.
use wow_dashboard_api.Prelude.{
  ℕ, ◌≡◌, ap, ◌∙◌, arith, String, some, find_where, Option-cases, inl, inr, find_where_sound,
}
use wow_dashboard_api.Store.Schema.{Db}
use wow_dashboard_api.Store.Effect.{Env, World, ok}
use wow_dashboard_api.Prelude.Text.{trim_space}
use wow_dashboard_api.Projects.Repository.{ProjectAccess, AccessRole, access_to, has_project_id}
use wow_dashboard_api.Projects.Members.{require_owner}

access_to-found :
    (d : Db) (id user : ℕ) (access : ProjectAccess)
    → access_to d id user ≡ some access
    → find_where (has_project_id access.project.id) d.projects ≡ some access.project
access_to-found d id user access e =
    elim (Option-cases (find_where (has_project_id id) d.projects)) [
      | inl missing ↦ absurd (ground arith)
      | inr (p, found) ↦
          let own : access.project ≡ p = ground arith in
          let sound = find_where_sound (has_project_id id) d.projects p found in
          let same : p.id ≡ id = ground arith in
          rw own (ap (λ n. find_where (has_project_id n) d.projects) same ∙ found)
    ]

pub require_owner-db :
    (user id : String) (env : Env) (w : World) → (require_owner user id env w).1.db ≡ w.db
unfolding require_owner
require_owner-db user id env w = ground arith

require_owner-reads :
    (user id : String) (env : Env) (w : World) (access : ProjectAccess)
    → (require_owner user id env w).0 ≡ ok access
    → (u : ℕ) × (i : ℕ) × (env.parse_uuid (trim_space user) ≡ some u)
      × (env.parse_uuid (trim_space id) ≡ some i)
unfolding require_owner
require_owner-reads user id env w access e =
    elim (Option-cases (env.parse_uuid (trim_space user))) [
      | inl no_user ↦ absurd (ground arith)
      | inr (u, eu) ↦ elim (Option-cases (env.parse_uuid (trim_space id))) [
        | inl no_id ↦ absurd (ground arith)
        | inr (i, ei) ↦ (u, i, eu, ei)
      ]
    ]

require_owner-sees :
    (user id : String) (env : Env) (w : World) (access : ProjectAccess) (u i : ℕ)
    → env.parse_uuid (trim_space user) ≡ some u
    → env.parse_uuid (trim_space id) ≡ some i
    → (require_owner user id env w).0 ≡ ok access
    → (access_to w.db i u ≡ some access) × (access.access_role ≡ AccessRole.owner)
unfolding require_owner
require_owner-sees user id env w access u i eu ei e = (ground arith, ground arith)

pub require_owner-ok :
    (user id : String) (env : Env) (w : World) (access : ProjectAccess)
    → (require_owner user id env w).0 ≡ ok access
    → find_where (has_project_id access.project.id) w.db.projects ≡ some access.project
require_owner-ok user id env w access e =
    let (u, i, eu, ei) = require_owner-reads user id env w access e in
    let (seen, _) = require_owner-sees user id env w access u i eu ei e in
    access_to-found w.db i u access seen
