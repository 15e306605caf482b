-- ===== src/Notifications.antt =====
-- Notifications: internal/notifications/service/service.go, internal/store/notificationsrepo, and
-- the cursors of internal/http/handlers/notifications.go as pairs of a time and an identifier.
pub mod Pages
use wow_dashboard_api.Prelude.{
  ℕ, zero, suc, ◌+◌, String, Bool, true, false, not, Option, none, some, List, [], ◌∷◌, ◌++◌, ◌&&◌,
  ◌||◌, ◌==◌, ltb, length, is_none, select_where, update_where, count_where, if◌then◌else◌,
}
use wow_dashboard_api.Prelude.Sorting.{order_by}
use wow_dashboard_api.Store.Schema.{Notification, Db, uuid_nil}
use wow_dashboard_api.Store.Effect.{
  Action, Result, ok, err, invalid_input, statement, dated_statement, raise_if, checked, pure,
  ◌>>=◌, ◌>>◌,
}
use wow_dashboard_api.Lists.Pagination.{ℤ, pos, negsuc}
use wow_dashboard_api.Lists.Keyset.{take, last}

abbrev pub default_list_limit : ℕ
default_list_limit = 20

abbrev pub max_list_limit : ℕ
max_list_limit = 100

-- The time and the identifier of a page's last row.
abbrev pub Cursor : Type 0
Cursor = ℕ × ℕ

abbrev pub cursor_of : Notification → Cursor
cursor_of n = (n.created_at, n.id)

-- Whether a row of the second key stands past one of the first: ORDER BY created_at DESC, id DESC.
abbrev pub key_before : Cursor → Cursor → Bool
key_before (at, id) (at', id') = ltb at' at || at == at' && ltb id' id

abbrev pub newest_first : Notification → Notification → Bool
newest_first x y = key_before (cursor_of x) (cursor_of y)

abbrev pub is_past : Option Cursor → Notification → Bool
is_past none n = true
is_past (some c) n = key_before c (cursor_of n)

abbrev pub is_unread_of : ℕ → Notification → Bool
is_unread_of user n = n.user_id == user && is_none n.read_at

-- The rows that a list is about.
abbrev pub is_listed : ℕ → Bool → Notification → Bool
is_listed user unread_only n = n.user_id == user && (not unread_only || is_none n.read_at)

-- ListNotificationsPage
unfoldable pub list_notification_rows : ℕ → Bool → Option Cursor → ℕ → Action (List Notification)
unfolding order_by
list_notification_rows user unread_only cursor limit = statement λ d. (
  ok (
      take limit (
        order_by newest_first
          (select_where (λ n. is_listed user unread_only n && is_past cursor n) d.notifications))),
  d,
)

unfoldable pub count_unread : ℕ → Action ℕ
count_unread user = statement λ d. (ok (count_where (is_unread_of user) d.notifications), d)

abbrev pub read_notifications : (Notification → Bool) → ℕ → Db → Result ℕ × Db
read_notifications p now d = (
  ok (count_where p d.notifications),
  record d {
    notifications = update_where p (λ n. record n { read_at = some now }) d.notifications;
  },
)

abbrev pub is_one_unread_of : ℕ → ℕ → Notification → Bool
is_one_unread_of user id n = n.id == id && is_unread_of user n

-- MarkRead and MarkAllRead of the store, which answer how many rows they changed.
unfoldable pub mark_row_read : ℕ → ℕ → Action ℕ
mark_row_read user id = dated_statement (read_notifications (is_one_unread_of user id))

unfoldable pub mark_all_rows_read : ℕ → Action ℕ
mark_all_rows_read user = dated_statement (read_notifications (is_unread_of user))

pub record ListInput : Type 0 where
  pub user_id : ℕ
  pub limit : Option ℤ
  pub unread_only : Bool
  pub cursor : Option Cursor

pub record ListResult : Type 0 where
  pub notifications : List Notification
  pub limit : ℕ
  pub has_more : Bool
  pub unread_count : ℕ

unfoldable pub normalize_limit : Option ℤ → Result ℕ
normalize_limit none = ok default_list_limit
normalize_limit (some (negsuc n)) = err invalid_input
normalize_limit (some (pos n)) = if n == 0 || ltb max_list_limit n then err invalid_input else ok n

-- List: one more row than the page holds is read, to see whether there is another page.
unfoldable pub list_notifications : ListInput → Action ListResult
unfolding normalize_limit list_notification_rows count_unread
list_notifications input = do
  raise_if (input.user_id == uuid_nil) invalid_input
  limit ← checked (normalize_limit input.limit)
  rows ← list_notification_rows input.user_id input.unread_only input.cursor (limit + 1)
  unread ← count_unread input.user_id
  pure (record {
    notifications = take limit rows;
    limit = limit;
    has_more = ltb limit (length rows);
    unread_count = unread;
  })

unfoldable pub mark_read : ℕ → ℕ → Action ℕ
unfolding mark_row_read count_unread
mark_read user id = do
  raise_if (user == uuid_nil || id == uuid_nil) invalid_input
  mark_row_read user id
  count_unread user

unfoldable pub mark_all_read : ℕ → Action ℕ
unfolding mark_all_rows_read count_unread
mark_all_read user = do
  raise_if (user == uuid_nil) invalid_input
  mark_all_rows_read user
  count_unread user

abbrev cursor_of_last : Option Notification → Option Cursor
cursor_of_last none = none
cursor_of_last (some n) = some (cursor_of n)

-- The cursor that an answer gives for the next page.
unfoldable pub next_cursor : ListResult → Option Cursor
next_cursor result = if result.has_more then cursor_of_last (last result.notifications) else none
