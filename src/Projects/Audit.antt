-- ===== src/Projects/Audit.antt =====
-- Audit events and notifications about projects: internal/projects/service/audit.go and members.go,
-- and their insertion by internal/store/projectsrepo/audit.go and notifications.go.
use wow_dashboard_api.Prelude.{
  none, ℕ, String, Bool, true, false, List, [], ◌∷◌, ◌++◌, ◌==◌, exists_where, if◌then◌else◌,
}
use wow_dashboard_api.Store.Schema.{Json, texts, Project}
use wow_dashboard_api.Store.Effect.{
  Action, Env, ok, err, internal, reading, asks, statement, attempt, pure, ◌>>=◌, ◌>>◌,
}
use wow_dashboard_api.Auth.Audit.{field}

-- service.AuditMetadata, without what withAuditRequestID adds.
pub record ProjectMetadata : Type 0 where
  pub project_id : String
  pub owner_user_id : String
  pub target_user_id : String
  pub status : String
  pub role : String
  pub changed_fields : List String

pub record ProjectEvent : Type 0 where
  pub event_type : String
  pub message : String
  pub metadata : ProjectMetadata

abbrev changed_field : List String → List (String × Json)
changed_field [] = []
changed_field (name ∷ names) = ("changed_fields", texts (name ∷ names)) ∷ []

-- json.Marshal of the metadata, after withAuditRequestID.
abbrev stored_project_metadata : Env → ProjectMetadata → List (String × Json)
stored_project_metadata env m =
    field "project_id" m.project_id
    ++ (field "owner_user_id" m.owner_user_id
        ++ (field "target_user_id" m.target_user_id
            ++ (field "status" m.status
                ++ (field "role" m.role
                    ++ (changed_field m.changed_fields
                        ++ (field "request_id" env.request_id
                            ++ field "impersonator_id" env.impersonator))))))

-- RecordProjectEvent, inside a transaction or not.
unfoldable pub record_project_event : ProjectEvent → Action (Unit {0})
record_project_event event = do
  metadata ← asks (λ env. stored_project_metadata env event.metadata)
  id ← reading λ env n. env.new_uuid n
  now ← reading λ env n. env.clock n
  statement λ d. (
    ok tt,
    record d {
      system_events =
          d.system_events
          ++ record {
            id = id;
            event_type = event.event_type;
            message = event.message;
            metadata = metadata;
            created_at = now;
          }
            ∷ [];
    },
  )

-- recordAudit: a failure is logged, and does not fail the request.
unfoldable pub record_project_audit : Bool → ProjectEvent → Action (Unit {0})
unfolding record_project_event
record_project_audit false event = pure tt
record_project_audit true event = do attempt (record_project_event event); pure tt

-- emitMemberAddedNotification; the insertion is refused by the reference to users.
unfoldable pub emit_member_added : ℕ → Project → Action (Unit {0})
emit_member_added user project = do
  id ← reading λ env n. env.new_uuid n
  now ← reading λ env n. env.clock n
  statement λ d.
      if exists_where (λ u. u.id == user) d.users
      then (
        ok tt,
        record d {
          notifications =
              d.notifications
              ++ record {
                id = id;
                user_id = user;
                notification_type = "projects.member.added";
                title = "You were added to a project";
                project_id = project.id;
                project_name = project.name;
                read_at = none;
                created_at = now;
              }
                ∷ [];
        },
      )
      else (err internal, d)
