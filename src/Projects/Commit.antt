-- ===== src/Projects/Commit.antt =====
-- How the mutations of projects end, with a unit of work: internal/projects/service.
use wow_dashboard_api.Prelude.{ℕ, ◌+◌, ◌≡◌, arith, String, true}
use wow_dashboard_api.Store.Effect.{Action, Env, World, Error, ok, err}
use wow_dashboard_api.Projects.Audit.{ProjectEvent, record_project_event}
use wow_dashboard_api.Projects.Operations.{ProjectService, commit}

-- With a unit of work a mutation that fails leaves the database as it was, with its event and its
-- notice.
pub commit-err :
    {A : Type 0} (s : ProjectService) (map_error : Error → Error) (write : Action A)
    (event : (ℕ → String) → A → ProjectEvent) (notify : Action (Unit {0})) (env : Env) (w : World)
    (e : Error)
    → s.unit_of_work ≡ true
    → (commit s map_error write event notify env w).0 ≡ err e
    → (commit s map_error write event notify env w).1.db ≡ w.db
unfolding commit
commit-err s map_error write event notify env w e atomic h = ground arith

-- What a mutation in a transaction that commits has written.
pub commit-ok :
    {A : Type 0} (s : ProjectService) (map_error : Error → Error) (write : Action A)
    (event : (ℕ → String) → A → ProjectEvent) (notify : Action (Unit {0})) (env : Env)
    (w w' : World) (a : A)
    → s.unit_of_work ≡ true
    → ((v : World) → (notify env v).1.db.project_members ≡ v.db.project_members)
    → ((v : World) → (notify env v).1.db.projects ≡ v.db.projects)
    → commit s map_error write event notify env w ≡ (ok a, w')
    → (write env (record w { calls = w.calls + 1 })).0 ≡ ok a
      × (w'.db.project_members
          ≡ (write env (record w { calls = w.calls + 1 })).1.db.project_members)
      × (w'.db.projects ≡ (write env (record w { calls = w.calls + 1 })).1.db.projects)
unfolding commit record_project_event
commit-ok s map_error write event notify env w w' a atomic keeps keeps' e =
    (ground arith, grind (arith, keeps), grind (arith, keeps'))
