-- ===== src/Http/Notifications.antt =====
-- The handlers of notifications: internal/http/handlers/notifications.go.
use wow_dashboard_api.Prelude.{ℕ, String, Bool, Option, none, some, List, map, if◌then◌else◌}
use wow_dashboard_api.Prelude.Text.{is_empty}
use wow_dashboard_api.Store.Schema.{Notification}
use wow_dashboard_api.Store.Effect.{Env, invalid_uuid}
use wow_dashboard_api.Lists.Pagination.{ℤ}
use wow_dashboard_api.Auth.Service.{Service}
use wow_dashboard_api.Notifications.{
  Cursor, ListResult, list_notifications, mark_read, mark_all_read, next_cursor,
}
use wow_dashboard_api.Http.Errors.{
  new_error, code_validation_failed, internal_error, map_notifications_error,
}
use wow_dashboard_api.Http.Endpoint.{Endpoint, pure, answer, call, or_refuse, ◌>>=◌}
use wow_dashboard_api.Http.Authorize.{authenticate}
use wow_dashboard_api.Http.Cursors.{Formats, encode_keyset_cursor, decode_keyset_cursor}

-- Each of these needs an account, and no permission.
unfoldable pub authenticate_notifications : Service → String → Endpoint ℕ
unfolding authenticate
authenticate_notifications s header = do
  user ← authenticate s header
  λ env. or_refuse (env.parse_uuid user.id) (internal_error invalid_uuid) env

pub record NotificationItem : Type 0 where
  pub id : String
  pub notification_type : String
  pub title : String
  pub project_id : String
  pub project_name : String
  pub read_at : Option ℕ
  pub created_at : ℕ

abbrev pub notification_item : Env → Notification → NotificationItem
notification_item env n = record {
  id = env.uuid_string n.id;
  notification_type = n.notification_type;
  title = n.title;
  project_id = env.uuid_string n.project_id;
  project_name = n.project_name;
  read_at = n.read_at;
  created_at = n.created_at;
}

pub record NotificationsListBody : Type 0 where
  pub notifications : List NotificationItem
  pub limit : ℕ
  pub unread_count : ℕ
  pub next_cursor : String

abbrev pub written_cursor : Formats → Env → Option Cursor → String
unfolding encode_keyset_cursor
written_cursor f env none = ""
written_cursor f env (some c) = encode_keyset_cursor f env c

unfoldable pub notifications_list_response : Formats → Env → ListResult → NotificationsListBody
unfolding next_cursor
notifications_list_response f env result = record {
  notifications = map (notification_item env) result.notifications;
  limit = result.limit;
  unread_count = result.unread_count;
  next_cursor = written_cursor f env (next_cursor result);
}

-- The cursor of a request, if it has one.
unfoldable pub read_cursor : Formats → String → Endpoint (Option Cursor)
unfolding decode_keyset_cursor
read_cursor f cursor env =
    if is_empty cursor then pure none env else elim (decode_keyset_cursor f env cursor) [
      | none ↦ or_refuse none (new_error code_validation_failed "Invalid pagination cursor.") env
      | some c ↦ pure (some c) env
    ]

unfoldable pub list_notifications_handler :
    Service → Formats → String → ℤ → Bool → String → Endpoint NotificationsListBody
unfolding authenticate_notifications read_cursor list_notifications map_notifications_error
    notifications_list_response
list_notifications_handler s f header limit unread_only cursor = do
  user_id ← authenticate_notifications s header
  past ← read_cursor f cursor
  result ← call map_notifications_error (
      list_notifications (record {
        user_id = user_id;
        limit = some limit;
        unread_only = unread_only;
        cursor = past;
      }))
  answer (λ env. notifications_list_response f env result)

unfoldable pub mark_notification_read_handler : Service → String → String → Endpoint ℕ
unfolding authenticate_notifications mark_read map_notifications_error
mark_notification_read_handler s header id = do
  user_id ← authenticate_notifications s header
  notification_id ← λ env.
      or_refuse (env.parse_uuid id) (new_error code_validation_failed "Invalid notification id.")
        env
  call map_notifications_error (mark_read user_id notification_id)

unfoldable pub mark_all_notifications_read_handler : Service → String → Endpoint ℕ
unfolding authenticate_notifications mark_all_read map_notifications_error
mark_all_notifications_read_handler s header = do
  user_id ← authenticate_notifications s header
  call map_notifications_error (mark_all_read user_id)
