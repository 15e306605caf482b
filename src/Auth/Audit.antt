-- ===== src/Auth/Audit.antt =====
-- Audit events of authentication: internal/auth/service/audit.go, and their insertion by
-- internal/store/authrepo/audit.go. The metadata is the JSON object that is stored.
use Prim.Native.Char.{code}
use wow_dashboard_api.Prelude.{
  ℕ, String, ◌≡◌, refl, arith, Bool, true, false, Option, none, some, List, [], ◌∷◌, ◌++◌, ◌==◌,
  if◌then◌else◌,
}
use wow_dashboard_api.Prelude.Text.{is_empty}
use wow_dashboard_api.Store.Schema.{Json, text, SystemEvent}
use wow_dashboard_api.Store.Effect.{
  Action, Env, World, ok, reading, asks, statement, attempt, pure, ◌>>=◌, ◌>>◌,
}
use Prim.Native.String.{◌++◌ as string_append}

-- The part of a text from its last "@" on (strings.LastIndex and the slice behind it).
unfoldable pub from_last_at : String → Option String
from_last_at String.[] = none
from_last_at (String.◌∷◌ c s) = elim (from_last_at s) [
  | some rest ↦ some rest
  | none ↦ if code c == b'@' then some (String.◌∷◌ c s) else none
]

-- Whether a text has one character at most.
abbrev at_most_one : String → Bool
at_most_one String.[] = true
at_most_one (String.◌∷◌ c s) = is_empty s

-- email[:1] is taken as the first character, so the first byte is one of ASCII.
unfoldable pub mask_email : String → String
unfolding from_last_at
mask_email String.[] = ""
mask_email (String.◌∷◌ c rest) = elim (from_last_at rest) [
  | none ↦ "***"
  | some suffix ↦
      if at_most_one suffix
      then "***"
      else string_append (String.◌∷◌ c String.[]) (string_append "***" suffix)
]

pub record AuditMetadata : Type 0 where
  pub email : String
  pub user_id : String
  pub reason : String
  pub actor_user_id : String
  pub target_user_id : String

abbrev pub no_metadata : AuditMetadata
no_metadata = record {
  email = "";
  user_id = "";
  reason = "";
  actor_user_id = "";
  target_user_id = "";
}

pub record AuditEvent : Type 0 where
  pub event_type : String
  pub message : String
  pub metadata : AuditMetadata

-- A field with `omitempty`.
abbrev pub field : String → String → List (String × Json)
field name value = if is_empty value then [] else (name, text value) ∷ []

-- json.Marshal of the metadata, after withAuditRequestID and maskEmail.
abbrev stored_metadata : String → AuditMetadata → List (String × Json)
stored_metadata request_id m =
    field "masked_email" (mask_email m.email)
    ++ (field "user_id" m.user_id
        ++ (field "reason" m.reason
            ++ (field "request_id" request_id
                ++ (field "actor_user_id" m.actor_user_id
                    ++ field "target_user_id" m.target_user_id))))

-- RecordAuthEvent of systemEventRecorder.
unfoldable pub record_auth_event : AuditEvent → Action (Unit {0})
unfolding mask_email
record_auth_event event = do
  request_id ← asks (λ env. env.request_id)
  id ← reading (λ env n. env.new_uuid n)
  now ← reading (λ env n. env.clock n)
  statement λ d. (
    ok tt,
    record d {
      system_events =
          d.system_events
          ++ record {
            id = id;
            event_type = event.event_type;
            message = event.message;
            metadata = stored_metadata request_id event.metadata;
            created_at = now;
          }
            ∷ [];
    },
  )

-- recordAudit: a failure is logged, and does not fail the request.
unfoldable pub record_audit : Bool → AuditEvent → Action (Unit {0})
unfolding record_auth_event
record_audit false event = pure tt
record_audit true event = do attempt (record_auth_event event); pure tt

-- The events and the count of calls after `record_audit`.
pub audit_events : Bool → AuditEvent → Env → World → List SystemEvent
audit_events enabled event env w = (record_audit enabled event env w).1.db.system_events

pub audit_calls : Bool → AuditEvent → Env → World → ℕ
audit_calls enabled event env w = (record_audit enabled event env w).1.calls

abbrev pub audited : Bool → AuditEvent → Env → World → World
audited enabled event env w = record w {
  calls = audit_calls enabled event env w;
  db = record w.db { system_events = audit_events enabled event env w };
}

-- It always succeeds, and changes nothing but the events.
pub record_audit-eq :
    (enabled : Bool) (event : AuditEvent) (env : Env) (w : World)
    → record_audit enabled event env w ≡ (ok tt, audited enabled event env w)
unfolding record_audit audit_events audit_calls
record_audit-eq false event env w = refl
record_audit-eq true event env w = ground arith
