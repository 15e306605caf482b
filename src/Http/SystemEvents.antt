-- ===== src/Http/SystemEvents.antt =====
-- The handlers of audit events: internal/http/handlers/system_events.go and security_activity.go.
use wow_dashboard_api.Prelude.{ℕ, String, Option, none, some, List, map, if◌then◌else◌}
use wow_dashboard_api.Prelude.Text.{is_empty}
use wow_dashboard_api.Store.Schema.{Json, SystemEvent}
use wow_dashboard_api.Store.Effect.{Env}
use wow_dashboard_api.Lists.Pagination.{ℤ}
use wow_dashboard_api.Auth.Service.{Service}
use wow_dashboard_api.SystemEvents.{
  ListEventsResult, list_events, list_user_activity, next_event_cursor,
}
use wow_dashboard_api.Http.Errors.{new_error, code_validation_failed, map_system_events_error}
use wow_dashboard_api.Http.Endpoint.{Endpoint, pure, answer, call, or_refuse, ◌>>=◌, ◌>>◌}
use wow_dashboard_api.Http.Authorize.{authorize_with_permission, current_user_id}
use wow_dashboard_api.Http.Cursors.{Formats}
use wow_dashboard_api.Http.Notifications.{read_cursor, written_cursor}

pub record SystemEventItem : Type 0 where
  pub id : String
  pub event_type : String
  pub message : String
  pub metadata : List (String × Json)
  pub created_at : ℕ

abbrev pub system_event_item : Env → SystemEvent → SystemEventItem
system_event_item env e = record {
  id = env.uuid_string e.id;
  event_type = e.event_type;
  message = e.message;
  metadata = e.metadata;
  created_at = e.created_at;
}

pub record SystemEventsListBody : Type 0 where
  pub events : List SystemEventItem
  pub limit : ℕ
  pub next_cursor : String

unfoldable pub list_system_events_response : Formats → Env → ListEventsResult → SystemEventsListBody
unfolding next_event_cursor
list_system_events_response f env result = record {
  events = map (system_event_item env) result.events;
  limit = result.limit;
  next_cursor = written_cursor f env (next_event_cursor result);
}

-- A bound of the range; `parse` is time.Parse with time.RFC3339.
unfoldable pub read_bound : (String → Option ℕ) → String → String → Endpoint (Option ℕ)
read_bound parse message bound env = if is_empty bound then pure none env else elim (parse bound) [
  | none ↦ or_refuse none (new_error code_validation_failed message) env
  | some t ↦ pure (some t) env
]

unfoldable pub list_system_events_handler :
    Service
    → Formats
    → (String → Option ℕ)
    → String
    → ℤ
    → String
    → String
    → String
    → String
    → Endpoint SystemEventsListBody
unfolding authorize_with_permission read_bound read_cursor list_events map_system_events_error
    list_system_events_response
list_system_events_handler s f parse header limit event_type after before cursor = do
  authorize_with_permission s header "system_events:read"
  created_after ← read_bound parse "Invalid 'after' timestamp; expected RFC3339." after
  created_before ← read_bound parse "Invalid 'before' timestamp; expected RFC3339." before
  past ← read_cursor f cursor
  result ← call map_system_events_error (
      list_events (record {
        limit = some limit;
        event_type = event_type;
        created_after = created_after;
        created_before = created_before;
        cursor = past;
      }))
  answer (λ env. list_system_events_response f env result)

unfoldable pub security_activity_handler :
    Service → Formats → String → ℤ → String → Endpoint SystemEventsListBody
unfolding current_user_id read_cursor list_user_activity map_system_events_error
    list_system_events_response
security_activity_handler s f header limit cursor = do
  user_id ← current_user_id s header "Security activity is unavailable while impersonating a user."
  past ← read_cursor f cursor
  result ←
      call map_system_events_error
        (list_user_activity (record { user_id = user_id; limit = some limit; cursor = past }))
  answer (λ env. list_system_events_response f env result)
